-- ===== src/Tests.antt =====
-- Concrete collaborators, the witnesses of the properties, and runs on small inputs.
mod Concrete
mod Channels
mod Files
mod Accounts
mod Sessions
mod Setters
mod Profiles
mod Servers
mod Threads
mod Flows
mod Searches
mod Queues
mod Nodes
mod Runs
mod Processes
mod Histories
mod Overlaps
mod Avatars
mod Clocks
mod Uploads

-- ===== src/User.antt =====
-- code/server/user/source/user_server.hpp: `UserServiceImpl`. Its children hold the checks of the
-- input and the calls, by what they are for; the children of those hold their theorems.
pub mod Env
pub mod Check
pub mod Register
pub mod Login
pub mod Profile
pub mod Calls
pub mod Flows

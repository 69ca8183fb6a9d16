-- ===== src/Builder/Node.antt =====
-- A node of the file server, as the user server sees it.
use cpp_microservice_im.Base.Dict
use cpp_microservice_im.Channel.{Channel}

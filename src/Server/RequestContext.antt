-- ===== src/Server/RequestContext.antt =====
-- src/server/request_context.h: `RequestContext`, what a request is executed with. The members are
-- references: they are the connection, the request and the engine themselves.
use kvmemo.Core.Engine.{Engine}
use kvmemo.Net.Connection.{Connection}
use kvmemo.Protocol.Request.{Request}

-- The accessors are the fields.
pub record RequestContext (P : Type 0) : Type 0 where
  pub connection : Connection
  pub request : Request
  pub engine : Engine P

abbrev pub new : {P : Type 0} → Connection → Request → Engine P → RequestContext P
new connection request engine = record {
  connection = connection;
  request = request;
  engine = engine;
}

-- ===== src/Http/Fixtures.antt =====
-- Concrete values for the examples: a gateway over the service of Rooms.Fixtures, and a request.
use chat_gateway.Prelude.{ℕ, ok, false, true, some, [], ◌∷◌}
use chat_gateway.Prelude.Text.{Text, bytes}
use chat_gateway.Security.KeyManager.{KeyManager}
use chat_gateway.Security.Fixtures.{keyed, room_key, store}
use chat_gateway.Rooms.Fixtures.{platform, world, moment}
use chat_gateway.Http.Setup.{Config, through, Gateway, Turn}
use chat_gateway.Http.Router.{new_gateway, Route, Request}

abbrev pub config : Config
config = record {
  max_multipart_memory = 0;
  rate_limiting = true;
  default_per_minute = 0;
  messages_per_minute = 30;
  rooms_per_minute = 10;
  sse_per_minute = 5;
  sse_per_ip = 3;
  sse_interval = 10;
  sse_total = 1000;
  max_members = 0;
  max_name_length = 0;
  max_message_length = 0;
  channel_buffer = 2;
  app_name = bytes "chat";
  debug = false;
  database_name = bytes "chat";
  address = bytes "localhost:8081";
}

abbrev pub wide : ℕ → ℕ
wide r = r

abbrev pub gateway : Gateway platform
gateway = new_gateway platform (some config) world

abbrev pub turn : Turn
turn = record {
  now = 1;
  moment = moment;
  uuid = bytes "u";
  dialled = ok tt;
  fate = through;
  later = λ n. through;
}

abbrev pub alice : Text
alice = bytes "10.0.0.1"

abbrev pub request : Text → Text → Route → Request
request method path route = record {
  method = method;
  path = path;
  origin = bytes "http://localhost:3000";
  request_id = [];
  source = record { forwarded_for = []; real_ip = []; client_ip = alice; user_agent = [] };
  query = [];
  route = route;
}

-- An object id.
abbrev pub room_id : Text
room_id = bytes "0123456789abcdef01234567"

-- A key manager with the key of the room in its cache.
abbrev pub manager : KeyManager store.State
manager = record keyed { keys = (room_id, room_key) ∷ [] }

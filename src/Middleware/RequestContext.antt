-- ===== src/Middleware/RequestContext.antt =====
-- middleware/request_id.go and request_context.go: the id of a request and where it comes from. gin's
-- reading of the headers and its `ClientIP` are parameters; a missing header is empty.
use chat_gateway.Prelude.{[], Option, none, some, not, if◌then◌else◌}
use chat_gateway.Prelude.Text.{Text, bytes, text_eq}

-- `RequestIDMiddleware`: the client's id, or a new one.
unfoldable pub request_id : Text → Text → Text
request_id header uuid = if text_eq header [] then uuid else header

-- What the metadata are read from.
pub record Origin : Type 0 where
  pub forwarded_for : Text
  pub real_ip : Text
  pub client_ip : Text
  pub user_agent : Text

pub record RequestMetadata : Type 0 where
  pub ip_address : Text
  pub user_agent : Text
  pub user_id : Text

unfoldable pub get_client_ip : Origin → Text
get_client_ip o =
    if not (text_eq o.forwarded_for [])
    then o.forwarded_for
    else if not (text_eq o.real_ip [])
    then o.real_ip
    else o.client_ip

-- `RequestMetadataMiddleware`, with the query's `user_id`.
unfoldable pub request_metadata : Origin → Text → RequestMetadata
unfolding get_client_ip
request_metadata o user = record {
  ip_address = get_client_ip o;
  user_agent = o.user_agent;
  user_id = user;
}

-- The value of the context, if it has one.
unfoldable pub get_request_metadata : Option RequestMetadata → RequestMetadata
get_request_metadata none = record {
  ip_address = bytes "unknown";
  user_agent = bytes "unknown";
  user_id = [];
}
get_request_metadata (some metadata) = metadata

unfoldable pub get_request_metadata_from_gin : Origin → Option RequestMetadata → RequestMetadata
unfolding get_client_ip
get_request_metadata_from_gin o none = record {
  ip_address = get_client_ip o;
  user_agent = o.user_agent;
  user_id = [];
}
get_request_metadata_from_gin o (some metadata) = metadata

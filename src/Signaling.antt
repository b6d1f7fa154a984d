-- ===== src/Signaling.antt =====
-- shared/receiver/signaling/session_codec.h and signaling_models.h: what the receiver accepts from the
-- signalling service. A throw is `none`, so that
-- the order of the tests does not show. The names and words of the messages are in Signaling/Words.
mod Words
pub mod Accepted
pub mod Tests
use kmvirtualcamera.Prelude.{
  ℕ, ◌+◌, ◌-◌, ◌≤◌, Bool, true, false, not, ◌&&◌, ◌||◌, Option, none, some, List, [], ◌∷◌, ◌++◌,
  ltb, leb, ◌==◌, if◌then◌else◌, length, Bytes, ◌>>=◌, is_empty,
}
use kmvirtualcamera.Json.{
  Value, Items, null, bool, number, string, array, object, no_items, item, at, string_of, uint32,
  same,
}
use kmvirtualcamera.Json.Reader.{parse}
use kmvirtualcamera.Signaling.Words.{
  session_id_key, receiver_token_key, join_url_key, expires_at_key, poll_key, initial_interval_key,
  backoff_after_key, max_interval_key, timeout_key, rtc_configuration_key, ice_transport_policy_key,
  ice_servers_key, urls_key, username_key, credential_key, credential_type_key, type_key, sdp_key,
  password, all_policy, relay_policy, offer_type, https_scheme, http_scheme, stun_scheme,
  turn_scheme, turns_scheme,
}

pub record IceServer : Type 0 where
  pub urls : List Bytes
  pub username : Bytes
  pub credential : Bytes

pub record RtcConfiguration : Type 0 where
  pub ice_servers : List IceServer
  pub ice_transport_policy : Bytes

-- In milliseconds.
pub record PollPolicy : Type 0 where
  pub initial_interval : ℕ
  pub backoff_after : ℕ
  pub max_interval : ℕ
  pub timeout : ℕ

pub record CreateSessionResponse : Type 0 where
  pub session_id : Bytes
  pub receiver_token : Bytes
  pub join_url : Bytes
  pub expires_at : Bytes
  pub poll : PollPolicy
  pub rtc_configuration : RtcConfiguration

pub record OfferDescription : Type 0 where
  pub type : Bytes
  pub sdp : Bytes

abbrev pub every : (ℕ → Bool) → Bytes → Bool
every f [] = true
every f (c ∷ cs) = f c && every f cs

unfoldable pub safe_header : Bytes → Bool
safe_header s = every (λ c. not (ltb c 32 || c == 127)) s

abbrev pub is_id_character : ℕ → Bool
is_id_character c =
    (leb 97 c && leb c 122)
    || (leb 65 c && leb c 90)
    || (leb 48 c && leb c 57)
    || c == 95
    || c == 45

unfoldable pub safe_session_id : Bytes → Bool
safe_session_id s = not (is_empty s || ltb 128 (length s)) && every is_id_character s

abbrev pub starts_with : Bytes → Bytes → Bool
starts_with [] s = true
starts_with (c ∷ cs) [] = false
starts_with (c ∷ cs) (x ∷ s) = c == x && starts_with cs s

unfoldable pub is_turn : Bytes → Bool
is_turn url = starts_with turn_scheme url || starts_with turns_scheme url

unfoldable pub supported_ice_url : Bytes → Bool
supported_ice_url s =
    leb (length s) 2048
    && safe_header s
    && every (λ c. not (c == 32)) s
    && (starts_with stun_scheme s || is_turn s)

-- A field that may be missing, with what it then is.
unfoldable pub optional_string : Bytes → Bytes → Value → Option Bytes
optional_string name default v = elim (at name v) [ none ↦ some default | some w ↦ string_of w ]

-- The strings of an array.
unfoldable pub strings : Items → Option (List Bytes)
strings no_items = some []
strings (item v vs) = do s ← string_of v; ss ← strings vs; some (s ∷ ss)

unfoldable pub urls_of : Value → Option (List Bytes)
urls_of (string s) = some (s ∷ [])
urls_of (array vs) = strings vs
urls_of null = none
urls_of (bool b) = none
urls_of (number t) = none
urls_of (object fs) = none

-- The test of one URL: supported, and with credentials if it is a TURN server's.
unfoldable pub url_allowed : Bytes → Bytes → Bytes → Bool
url_allowed username credential url =
    supported_ice_url url && not (is_turn url && (is_empty username || is_empty credential))

abbrev pub all_allowed : Bytes → Bytes → List Bytes → Bool
all_allowed username credential [] = true
all_allowed username credential (u ∷ us) =
    url_allowed username credential u && all_allowed username credential us

-- The tests of a server, after `count` URLs of others: with the new count.
unfoldable pub checked_server : ℕ → Bytes → IceServer → Option (IceServer × ℕ)
checked_server count kind s =
    if is_empty s.urls
      || ltb 64 (count + length s.urls)
      || ltb 4096 (length s.username)
      || ltb 4096 (length s.credential)
      || not (safe_header s.username)
      || not (safe_header s.credential)
      || not (same kind password)
      || not (all_allowed s.username s.credential s.urls)
    then none
    else some (s, count + length s.urls)

-- One server.
unfoldable pub decode_server : ℕ → Value → Option (IceServer × ℕ)
decode_server count v = do
  field ← at urls_key v
  urls ← urls_of field
  username ← optional_string username_key [] v
  credential ← optional_string credential_key [] v
  kind ← optional_string credential_type_key password v
  checked_server count kind (record { urls = urls; username = username; credential = credential })

unfoldable pub decode_servers : ℕ → Items → Option (List IceServer)
decode_servers count no_items = some []
decode_servers count (item v vs) = do
  (server, n) ← decode_server count v
  servers ← decode_servers n vs
  some (server ∷ servers)

abbrev pub count_items : Items → ℕ
count_items no_items = 0
count_items (item v vs) = 1 + count_items vs

unfoldable pub server_list : Value → Option (List IceServer)
server_list (array vs) = if ltb 32 (count_items vs) then none else decode_servers 0 vs
server_list null = none
server_list (bool b) = none
server_list (number t) = none
server_list (string s) = none
server_list (object fs) = none

unfoldable pub bad_identity : Bytes → Bytes → Bytes → Bool
bad_identity session_id token join_url =
    not (safe_session_id session_id)
    || is_empty token
    || ltb 8192 (length token)
    || not (safe_header token)
    || not (safe_header join_url)
    || ltb 8192 (length join_url)
    || not (starts_with https_scheme join_url || starts_with http_scheme join_url)

unfoldable pub bad_policy : PollPolicy → Bool
bad_policy p =
    ltb p.initial_interval 20
    || ltb p.max_interval p.initial_interval
    || ltb 60000 p.max_interval
    || ltb p.timeout p.max_interval
    || ltb 3600000 p.timeout
    || ltb p.timeout p.backoff_after

unfoldable pub checked_poll : PollPolicy → Option PollPolicy
checked_poll p = if bad_policy p then none else some p

unfoldable pub decode_poll : Value → Option PollPolicy
decode_poll v = do
  a ← at initial_interval_key v >>= uint32
  b ← at backoff_after_key v >>= uint32
  c ← at max_interval_key v >>= uint32
  d ← at timeout_key v >>= uint32
  let p : PollPolicy = record {
    initial_interval = a;
    backoff_after = b;
    max_interval = c;
    timeout = d;
  }
  checked_poll p

unfoldable pub decode_configuration : Value → Option RtcConfiguration
decode_configuration v = do
  policy ← optional_string ice_transport_policy_key all_policy v
  field ← at ice_servers_key v
  servers ← server_list field
  (if same policy all_policy || same policy relay_policy
      then some (record { ice_servers = servers; ice_transport_policy = policy })
      else none)

unfoldable pub checked_session : CreateSessionResponse → Option CreateSessionResponse
checked_session r = if bad_identity r.session_id r.receiver_token r.join_url then none else some r

unfoldable pub decode_session : Bytes → Option CreateSessionResponse
decode_session body = do
  root ← parse body
  session_id ← at session_id_key root >>= string_of
  token ← at receiver_token_key root >>= string_of
  join_url ← at join_url_key root >>= string_of
  expires_at ← at expires_at_key root >>= string_of
  poll ← at poll_key root >>= decode_poll
  configuration ← at rtc_configuration_key root >>= decode_configuration
  checked_session (record {
    session_id = session_id;
    receiver_token = token;
    join_url = join_url;
    expires_at = expires_at;
    poll = poll;
    rtc_configuration = configuration;
  })

unfoldable pub decode_offer : Bytes → Option OfferDescription
decode_offer body = do
  root ← parse body
  type ← at type_key root >>= string_of
  sdp ← at sdp_key root >>= string_of
  (if not (same type offer_type)
        || is_empty sdp
        || ltb 524288 (length sdp)
        || not (every (λ c. not (c == 0)) sdp)
      then none
      else some (record { type = type; sdp = sdp }))

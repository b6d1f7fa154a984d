-- ===== src/Signaling/Accepted.antt =====
-- What shared/receiver/signaling/session_codec.h lets through.
use kmvirtualcamera.Prelude.{
  ℕ, ◌+◌, ◌≤◌, ◌≡◌, refl, ◌⊎◌, Bool, true, false, not, ◌||◌, none, some, List, [], ◌∷◌, arith, ltb,
  ◌==◌, length, Bytes, All, Bool-cases, inl, inr, ◌>>=◌, is_empty,
}
use mathlib.Core.Path.{subst}
use kmvirtualcamera.Prelude.Ensures.{Ensures, Ensures->>=, Ensures-if, Ensures-then, Ensures-map}
use kmvirtualcamera.Json.{
  Value, Items, null, bool, number, string, array, object, no_items, item, at, string_of, uint32,
  same,
}
use kmvirtualcamera.Json.Reader.{parse}
use kmvirtualcamera.Signaling.{
  IceServer, RtcConfiguration, PollPolicy, CreateSessionResponse, every, safe_header,
  is_id_character, safe_session_id, starts_with, is_turn, supported_ice_url, optional_string,
  urls_of, url_allowed, all_allowed, checked_server, checked_poll, checked_session, decode_server,
  decode_servers, count_items, server_list, bad_identity, bad_policy, decode_poll,
  decode_configuration, decode_session,
}
use kmvirtualcamera.Signaling.Words.{
  urls_key, username_key, credential_key, credential_type_key, password, ice_transport_policy_key,
  all_policy, relay_policy, ice_servers_key, initial_interval_key, backoff_after_key,
  max_interval_key, timeout_key, stun_scheme, session_id_key, receiver_token_key, join_url_key,
  expires_at_key, poll_key, rtc_configuration_key,
}

-- A STUN URL, or a TURN URL with credentials; short, without controls and spaces.
abbrev pub IsUrl : IceServer → Bytes → Type 0
IsUrl s u =
    (length u ≤ 2048)
    × (safe_header u ≡ true)
    × (every (λ c. not (c == 32)) u ≡ true)
    × ((starts_with stun_scheme u ≡ true)
        ⊎ (is_turn u ≡ true) × (1 ≤ length s.username) × (1 ≤ length s.credential))

abbrev pub IsServer : IceServer → Type 0
IsServer s =
    (1 ≤ length s.urls)
    × All (IsUrl s) s.urls
    × (length s.username ≤ 4096)
    × (length s.credential ≤ 4096)

abbrev pub total_urls : List IceServer → ℕ
total_urls [] = 0
total_urls (s ∷ ss) = length s.urls + total_urls ss

abbrev pub IsConfiguration : RtcConfiguration → Type 0
IsConfiguration c =
    (length c.ice_servers ≤ 32) × (total_urls c.ice_servers ≤ 64) × All IsServer c.ice_servers

abbrev pub IsPolicy : PollPolicy → Type 0
IsPolicy p =
    (20 ≤ p.initial_interval)
    × (p.initial_interval ≤ p.max_interval)
    × (p.max_interval ≤ 60000)
    × (p.max_interval ≤ p.timeout)
    × (p.timeout ≤ 3600000)
    × (p.backoff_after ≤ p.timeout)

abbrev pub IsSession : CreateSessionResponse → Type 0
IsSession r =
    (1 ≤ length r.session_id)
    × (length r.session_id ≤ 128)
    × (every is_id_character r.session_id ≡ true)
    × (1 ≤ length r.receiver_token)
    × (length r.receiver_token ≤ 8192)
    × (safe_header r.receiver_token ≡ true)
    × IsPolicy r.poll
    × IsConfiguration r.rtc_configuration

nonempty {ℓ} : {A : Type ℓ} (b : List A) → is_empty b ≡ false → 1 ≤ length b
nonempty [] e = cc
nonempty (c ∷ b) e = omega arith

url_allowed-IsUrl :
    (s : IceServer) (u : Bytes) → url_allowed s.username s.credential u ≡ true → IsUrl s u
unfolding url_allowed supported_ice_url
url_allowed-IsUrl s u e = (ground (arith, e), ground (arith, e), ground (arith, e), kind)
  where
    kind :
        (starts_with stun_scheme u ≡ true)
        ⊎ (is_turn u ≡ true) × (1 ≤ length s.username) × (1 ≤ length s.credential)
    kind = elim (Bool-cases (is_turn u)) [
      | inl t ↦ inr (
        t,
        nonempty s.username (ground (arith, e, t)),
        nonempty s.credential (ground (arith, e, t)),
      )
      | inr t ↦ inl (ground (arith, e, t))
    ]

all_allowed-IsUrl :
    (s : IceServer) (us : List Bytes)
    → all_allowed s.username s.credential us ≡ true
    → All (IsUrl s) us
all_allowed-IsUrl s [] e = tt
all_allowed-IsUrl s (u ∷ us) e =
    (url_allowed-IsUrl s u (ground (arith, e)), all_allowed-IsUrl s us (ground (arith, e)))

-- A server and the new count of URLs.
abbrev IsCounted : ℕ → IceServer × ℕ → Type 0
IsCounted count (s, n) = IsServer s × (n ≡ count + length s.urls) × (n ≤ 64)

checked_server-IsCounted :
    (count : ℕ) (kind : Bytes) (s : IceServer)
    → Ensures (IsCounted count) (checked_server count kind s)
unfolding checked_server
checked_server-IsCounted count kind s = elim (Bool-cases rejected) [
  | inl e ↦ rw e tt
  | inr e ↦ rw e (
    (
      nonempty s.urls (ground (arith, e)),
      all_allowed-IsUrl s s.urls (ground (arith, e)),
      ground (arith, e),
      ground (arith, e),
    ),
    refl,
    ground (arith, e),
  )
]
  where
    rejected : Bool
    rejected =
        is_empty s.urls
        || ltb 64 (count + length s.urls)
        || ltb 4096 (length s.username)
        || ltb 4096 (length s.credential)
        || not (safe_header s.username)
        || not (safe_header s.credential)
        || not (same kind password)
        || not (all_allowed s.username s.credential s.urls)

decode_server-IsCounted :
    (count : ℕ) (v : Value) → Ensures (IsCounted count) (decode_server count v)
unfolding decode_server
decode_server-IsCounted count v = Ensures-then (IsCounted count) (at urls_key v) _ (λ field.
    Ensures-then (IsCounted count) (urls_of field) _ (λ urls.
      Ensures-then (IsCounted count) (optional_string username_key [] v) _ (λ username.
        Ensures-then (IsCounted count) (optional_string credential_key [] v) _ (λ credential.
          Ensures-then (IsCounted count) (optional_string credential_type_key password v) _ (λ kind.
            checked_server-IsCounted count kind
              (record { urls = urls; username = username; credential = credential }))))))

abbrev AreServers : ℕ → ℕ → List IceServer → Type 0
AreServers count n ss = (length ss ≡ n) × (count + total_urls ss ≤ 64) × All IsServer ss

decode_servers-AreServers :
    (count : ℕ) (vs : Items)
    → count ≤ 64
    → Ensures (AreServers count (count_items vs)) (decode_servers count vs)
unfolding decode_servers
decode_servers-AreServers count no_items h = (refl, omega (arith, h), tt)
decode_servers-AreServers count (item v vs) h =
    let Q = AreServers count (count_items (item v vs)) in
    Ensures->>= (IsCounted count) Q (decode_server count v) _ (decode_server-IsCounted count v)
      (λ (server, n) (i, e, l).
        Ensures->>= (AreServers n (count_items vs)) Q (decode_servers n vs) _
          (decode_servers-AreServers n vs l)
          (λ ss (a, b, c). (omega (arith, a), omega (arith, b, e), (i, c))))

server_list-AreServers :
    (v : Value)
    → Ensures (λ ss. (length ss ≤ 32) × (total_urls ss ≤ 64) × All IsServer ss) (server_list v)
unfolding server_list
server_list-AreServers (array vs) =
    let Q : List IceServer → Type 0 =
      λ ss. (length ss ≤ 32) × (total_urls ss ≤ 64) × All IsServer ss in
    Ensures-if Q (ltb 32 (count_items vs)) none (decode_servers 0 vs) (λ e. tt)
      (λ e.
        Ensures-map (AreServers 0 (count_items vs)) Q (decode_servers 0 vs)
          (decode_servers-AreServers 0 vs (omega arith))
          (λ ss (a, b, c). (ground (arith, a, e), omega (arith, b), c)))
server_list-AreServers null = tt
server_list-AreServers (bool b) = tt
server_list-AreServers (number t) = tt
server_list-AreServers (string t) = tt
server_list-AreServers (object fs) = tt

checked_poll-IsPolicy : (p : PollPolicy) → Ensures IsPolicy (checked_poll p)
unfolding checked_poll bad_policy
checked_poll-IsPolicy p =
    Ensures-if IsPolicy (bad_policy p) none (some p) (λ e. tt)
      (λ e. (
        ground (arith, e),
        ground (arith, e),
        ground (arith, e),
        ground (arith, e),
        ground (arith, e),
        ground (arith, e),
      ))

decode_poll-IsPolicy : (v : Value) → Ensures IsPolicy (decode_poll v)
unfolding decode_poll
decode_poll-IsPolicy v = Ensures-then IsPolicy (at initial_interval_key v >>= uint32) _ (λ a.
    Ensures-then IsPolicy (at backoff_after_key v >>= uint32) _ (λ b.
      Ensures-then IsPolicy (at max_interval_key v >>= uint32) _ (λ c.
        Ensures-then IsPolicy (at timeout_key v >>= uint32) _ (λ d.
          checked_poll-IsPolicy
            (record { initial_interval = a; backoff_after = b; max_interval = c; timeout = d })))))

decode_configuration-IsConfiguration :
    (v : Value) → Ensures IsConfiguration (decode_configuration v)
unfolding decode_configuration
decode_configuration-IsConfiguration v =
    let Q : List IceServer → Type 0 =
      λ ss. (length ss ≤ 32) × (total_urls ss ≤ 64) × All IsServer ss in
    Ensures-then IsConfiguration (optional_string ice_transport_policy_key all_policy v) _
      (λ policy. Ensures-then IsConfiguration (at ice_servers_key v) _ (λ field.
        Ensures->>= Q IsConfiguration (server_list field) _ (server_list-AreServers field)
          (λ servers q.
            Ensures-if IsConfiguration (same policy all_policy || same policy relay_policy) _ none
              (λ e. q) (λ e. tt))))

checked_session-IsSession :
    (r : CreateSessionResponse)
    → IsPolicy r.poll
    → IsConfiguration r.rtc_configuration
    → Ensures IsSession (checked_session r)
unfolding checked_session bad_identity safe_session_id
checked_session-IsSession r p c =
    Ensures-if IsSession (bad_identity r.session_id r.receiver_token r.join_url) none (some r)
      (λ e. tt)
      (λ e. (
        nonempty r.session_id (ground (arith, e)),
        ground (arith, e),
        ground (arith, e),
        nonempty r.receiver_token (ground (arith, e)),
        ground (arith, e),
        ground (arith, e),
        p,
        c,
      ))

decoded : (body : Bytes) → Ensures IsSession (decode_session body)
unfolding decode_session
decoded body = Ensures-then IsSession (parse body) _ (λ root.
    Ensures-then IsSession (at session_id_key root >>= string_of) _ (λ session_id.
      Ensures-then IsSession (at receiver_token_key root >>= string_of) _ (λ token.
        Ensures-then IsSession (at join_url_key root >>= string_of) _ (λ join_url.
          Ensures-then IsSession (at expires_at_key root >>= string_of) _ (λ expires_at.
            Ensures->>= IsPolicy IsSession (at poll_key root >>= decode_poll) _
              (Ensures-then IsPolicy (at poll_key root) decode_poll decode_poll-IsPolicy)
              (λ poll p.
                Ensures->>= IsConfiguration IsSession
                  (at rtc_configuration_key root >>= decode_configuration) _
                  (Ensures-then IsConfiguration (at rtc_configuration_key root) decode_configuration
                    decode_configuration-IsConfiguration)
                  (λ configuration c. checked_session-IsSession _ p c)))))))

-- Whatever the server answers: a session that is accepted has an identifier of 1 to 128 letters, digits,
-- dashes and underscores, a token of 1 to 8192 bytes without controls, and a poll policy whose intervals
-- are ordered and lie between 20 ms and a minute, with a timeout of at most an hour; it has at most 32
-- ICE servers with 64 URLs in all, each a STUN URL or a TURN URL that comes with credentials.
pub decode_session_sound :
    (body : Bytes) (r : CreateSessionResponse) → decode_session body ≡ some r → IsSession r
decode_session_sound body r e = subst (Ensures IsSession) e (decoded body)

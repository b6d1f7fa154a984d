-- ===== src/Signaling/Words.antt =====
-- The field names and the words in the messages of shared/receiver/signaling/session_codec.h, as bytes.
use kmvirtualcamera.Prelude.{[], ◌∷◌, Bytes}

-- sessionId
abbrev pub session_id_key : Bytes
session_id_key = 115 ∷ 101 ∷ 115 ∷ 115 ∷ 105 ∷ 111 ∷ 110 ∷ 73 ∷ 100 ∷ []

-- receiverToken
abbrev pub receiver_token_key : Bytes
receiver_token_key = 114 ∷ 101 ∷ 99 ∷ 101 ∷ 105 ∷ 118 ∷ 101 ∷ 114 ∷ 84 ∷ 111 ∷ 107 ∷ 101 ∷ 110 ∷ []

-- joinUrl
abbrev pub join_url_key : Bytes
join_url_key = 106 ∷ 111 ∷ 105 ∷ 110 ∷ 85 ∷ 114 ∷ 108 ∷ []

-- expiresAt
abbrev pub expires_at_key : Bytes
expires_at_key = 101 ∷ 120 ∷ 112 ∷ 105 ∷ 114 ∷ 101 ∷ 115 ∷ 65 ∷ 116 ∷ []

-- poll
abbrev pub poll_key : Bytes
poll_key = 112 ∷ 111 ∷ 108 ∷ 108 ∷ []

-- initialIntervalMs
abbrev pub initial_interval_key : Bytes
initial_interval_key =
    105 ∷ 110 ∷ 105 ∷ 116 ∷ 105 ∷ 97 ∷ 108 ∷ 73 ∷ 110 ∷ 116 ∷ 101 ∷ 114 ∷ 118 ∷ 97 ∷ 108 ∷ 77 ∷ 115
    ∷ []

-- backoffAfterMs
abbrev pub backoff_after_key : Bytes
backoff_after_key =
    98 ∷ 97 ∷ 99 ∷ 107 ∷ 111 ∷ 102 ∷ 102 ∷ 65 ∷ 102 ∷ 116 ∷ 101 ∷ 114 ∷ 77 ∷ 115 ∷ []

-- maxIntervalMs
abbrev pub max_interval_key : Bytes
max_interval_key = 109 ∷ 97 ∷ 120 ∷ 73 ∷ 110 ∷ 116 ∷ 101 ∷ 114 ∷ 118 ∷ 97 ∷ 108 ∷ 77 ∷ 115 ∷ []

-- timeoutMs
abbrev pub timeout_key : Bytes
timeout_key = 116 ∷ 105 ∷ 109 ∷ 101 ∷ 111 ∷ 117 ∷ 116 ∷ 77 ∷ 115 ∷ []

-- rtcConfiguration
abbrev pub rtc_configuration_key : Bytes
rtc_configuration_key =
    114 ∷ 116 ∷ 99 ∷ 67 ∷ 111 ∷ 110 ∷ 102 ∷ 105 ∷ 103 ∷ 117 ∷ 114 ∷ 97 ∷ 116 ∷ 105 ∷ 111 ∷ 110 ∷ []

-- iceTransportPolicy
abbrev pub ice_transport_policy_key : Bytes
ice_transport_policy_key =
    105 ∷ 99 ∷ 101 ∷ 84 ∷ 114 ∷ 97 ∷ 110 ∷ 115 ∷ 112 ∷ 111 ∷ 114 ∷ 116 ∷ 80 ∷ 111 ∷ 108 ∷ 105 ∷ 99
    ∷ 121 ∷ []

-- iceServers
abbrev pub ice_servers_key : Bytes
ice_servers_key = 105 ∷ 99 ∷ 101 ∷ 83 ∷ 101 ∷ 114 ∷ 118 ∷ 101 ∷ 114 ∷ 115 ∷ []

-- urls
abbrev pub urls_key : Bytes
urls_key = 117 ∷ 114 ∷ 108 ∷ 115 ∷ []

-- username
abbrev pub username_key : Bytes
username_key = 117 ∷ 115 ∷ 101 ∷ 114 ∷ 110 ∷ 97 ∷ 109 ∷ 101 ∷ []

-- credential
abbrev pub credential_key : Bytes
credential_key = 99 ∷ 114 ∷ 101 ∷ 100 ∷ 101 ∷ 110 ∷ 116 ∷ 105 ∷ 97 ∷ 108 ∷ []

-- credentialType
abbrev pub credential_type_key : Bytes
credential_type_key =
    99 ∷ 114 ∷ 101 ∷ 100 ∷ 101 ∷ 110 ∷ 116 ∷ 105 ∷ 97 ∷ 108 ∷ 84 ∷ 121 ∷ 112 ∷ 101 ∷ []

-- type
abbrev pub type_key : Bytes
type_key = 116 ∷ 121 ∷ 112 ∷ 101 ∷ []

-- sdp
abbrev pub sdp_key : Bytes
sdp_key = 115 ∷ 100 ∷ 112 ∷ []

-- password
abbrev pub password : Bytes
password = 112 ∷ 97 ∷ 115 ∷ 115 ∷ 119 ∷ 111 ∷ 114 ∷ 100 ∷ []

-- all
abbrev pub all_policy : Bytes
all_policy = 97 ∷ 108 ∷ 108 ∷ []

-- relay
abbrev pub relay_policy : Bytes
relay_policy = 114 ∷ 101 ∷ 108 ∷ 97 ∷ 121 ∷ []

-- offer
abbrev pub offer_type : Bytes
offer_type = 111 ∷ 102 ∷ 102 ∷ 101 ∷ 114 ∷ []

-- https://
abbrev pub https_scheme : Bytes
https_scheme = 104 ∷ 116 ∷ 116 ∷ 112 ∷ 115 ∷ 58 ∷ 47 ∷ 47 ∷ []

-- http://
abbrev pub http_scheme : Bytes
http_scheme = 104 ∷ 116 ∷ 116 ∷ 112 ∷ 58 ∷ 47 ∷ 47 ∷ []

-- stun:
abbrev pub stun_scheme : Bytes
stun_scheme = 115 ∷ 116 ∷ 117 ∷ 110 ∷ 58 ∷ []

-- turn:
abbrev pub turn_scheme : Bytes
turn_scheme = 116 ∷ 117 ∷ 114 ∷ 110 ∷ 58 ∷ []

-- turns:
abbrev pub turns_scheme : Bytes
turns_scheme = 116 ∷ 117 ∷ 114 ∷ 110 ∷ 115 ∷ 58 ∷ []

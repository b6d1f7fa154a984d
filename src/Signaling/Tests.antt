-- ===== src/Signaling/Tests.antt =====
-- Runs of shared/receiver/signaling/session_codec.h, and the theorem at a concrete answer.
use kmvirtualcamera.Prelude.{◌≡◌, refl, some, [], ◌∷◌, Bytes}
use kmvirtualcamera.Json.{
  Value, number, string, array, object, no_items, item, no_fields, field, valid_utf8, valid_from,
  character, at, lookup, string_of, uint32, decimal,
}
use kmvirtualcamera.Json.Reader.{
  parse, spaces, take_char, read_value, read_items, read_fields, read_key, read_scalar, read_string,
  characters, read_number, whole_part, some_digits, digits, fraction_part, exponent_part,
}
use kmvirtualcamera.Signaling.{
  CreateSessionResponse, decode_session, checked_session, bad_identity, safe_session_id,
  safe_header, decode_poll, checked_poll, bad_policy, decode_configuration, server_list,
  decode_servers, decode_server, checked_server, optional_string, urls_of, url_allowed,
  supported_ice_url, is_turn,
}
use kmvirtualcamera.Signaling.Words.{
  session_id_key, receiver_token_key, join_url_key, expires_at_key, poll_key, initial_interval_key,
  backoff_after_key, max_interval_key, timeout_key, rtc_configuration_key, ice_servers_key,
  urls_key, all_policy,
}
use kmvirtualcamera.Signaling.Accepted.{IsSession, decode_session_sound}

-- {"sessionId":"a","receiverToken":"t","joinUrl":"http://h","expiresAt":"","poll":{"initialIntervalMs":20,"backoffAfterMs":40,"maxIntervalMs":30,"timeoutMs":90},"rtcConfiguration":{"iceServers":[{"urls":"stun:a"}]}}
abbrev pub body : Bytes
body =
    123 ∷ 34 ∷ 115 ∷ 101 ∷ 115 ∷ 115 ∷ 105 ∷ 111 ∷ 110 ∷ 73 ∷ 100 ∷ 34 ∷ 58 ∷ 34 ∷ 97 ∷ 34 ∷ 44 ∷ 34
    ∷ 114 ∷ 101 ∷ 99 ∷ 101 ∷ 105 ∷ 118 ∷ 101 ∷ 114 ∷ 84 ∷ 111 ∷ 107 ∷ 101 ∷ 110 ∷ 34 ∷ 58 ∷ 34 ∷ 116
    ∷ 34 ∷ 44 ∷ 34 ∷ 106 ∷ 111 ∷ 105 ∷ 110 ∷ 85 ∷ 114 ∷ 108 ∷ 34 ∷ 58 ∷ 34 ∷ 104 ∷ 116 ∷ 116 ∷ 112
    ∷ 58 ∷ 47 ∷ 47 ∷ 104 ∷ 34 ∷ 44 ∷ 34 ∷ 101 ∷ 120 ∷ 112 ∷ 105 ∷ 114 ∷ 101 ∷ 115 ∷ 65 ∷ 116 ∷ 34
    ∷ 58 ∷ 34 ∷ 34 ∷ 44 ∷ 34 ∷ 112 ∷ 111 ∷ 108 ∷ 108 ∷ 34 ∷ 58 ∷ 123 ∷ 34 ∷ 105 ∷ 110 ∷ 105 ∷ 116
    ∷ 105 ∷ 97 ∷ 108 ∷ 73 ∷ 110 ∷ 116 ∷ 101 ∷ 114 ∷ 118 ∷ 97 ∷ 108 ∷ 77 ∷ 115 ∷ 34 ∷ 58 ∷ 50 ∷ 48
    ∷ 44 ∷ 34 ∷ 98 ∷ 97 ∷ 99 ∷ 107 ∷ 111 ∷ 102 ∷ 102 ∷ 65 ∷ 102 ∷ 116 ∷ 101 ∷ 114 ∷ 77 ∷ 115 ∷ 34
    ∷ 58 ∷ 52 ∷ 48 ∷ 44 ∷ 34 ∷ 109 ∷ 97 ∷ 120 ∷ 73 ∷ 110 ∷ 116 ∷ 101 ∷ 114 ∷ 118 ∷ 97 ∷ 108 ∷ 77
    ∷ 115 ∷ 34 ∷ 58 ∷ 51 ∷ 48 ∷ 44 ∷ 34 ∷ 116 ∷ 105 ∷ 109 ∷ 101 ∷ 111 ∷ 117 ∷ 116 ∷ 77 ∷ 115 ∷ 34
    ∷ 58 ∷ 57 ∷ 48 ∷ 125 ∷ 44 ∷ 34 ∷ 114 ∷ 116 ∷ 99 ∷ 67 ∷ 111 ∷ 110 ∷ 102 ∷ 105 ∷ 103 ∷ 117 ∷ 114
    ∷ 97 ∷ 116 ∷ 105 ∷ 111 ∷ 110 ∷ 34 ∷ 58 ∷ 123 ∷ 34 ∷ 105 ∷ 99 ∷ 101 ∷ 83 ∷ 101 ∷ 114 ∷ 118 ∷ 101
    ∷ 114 ∷ 115 ∷ 34 ∷ 58 ∷ 91 ∷ 123 ∷ 34 ∷ 117 ∷ 114 ∷ 108 ∷ 115 ∷ 34 ∷ 58 ∷ 34 ∷ 115 ∷ 116 ∷ 117
    ∷ 110 ∷ 58 ∷ 97 ∷ 34 ∷ 125 ∷ 93 ∷ 125 ∷ 125 ∷ []

abbrev root : Value
root = object (
    field session_id_key (string (97 ∷ [])) (
      field receiver_token_key (string (116 ∷ [])) (
        field join_url_key (string (104 ∷ 116 ∷ 116 ∷ 112 ∷ 58 ∷ 47 ∷ 47 ∷ 104 ∷ [])) (
          field expires_at_key (string []) (
            field poll_key
              (object (
                field initial_interval_key (number (50 ∷ 48 ∷ [])) (
                  field backoff_after_key (number (52 ∷ 48 ∷ [])) (
                    field max_interval_key (number (51 ∷ 48 ∷ []))
                      (field timeout_key (number (57 ∷ 48 ∷ [])) no_fields)))))
              (field rtc_configuration_key
                (object (
                  field ice_servers_key
                    (array (
                      item
                        (object (
                          field urls_key (string (115 ∷ 116 ∷ 117 ∷ 110 ∷ 58 ∷ 97 ∷ [])) no_fields))
                        no_items))
                    no_fields))
                no_fields))))))

abbrev pub session : CreateSessionResponse
session = record {
  session_id = 97 ∷ [];
  receiver_token = 116 ∷ [];
  join_url = 104 ∷ 116 ∷ 116 ∷ 112 ∷ 58 ∷ 47 ∷ 47 ∷ 104 ∷ [];
  expires_at = [];
  poll = record { initial_interval = 20; backoff_after = 40; max_interval = 30; timeout = 90 };
  rtc_configuration = record {
    ice_servers =
        record {
          urls = (115 ∷ 116 ∷ 117 ∷ 110 ∷ 58 ∷ 97 ∷ []) ∷ [];
          username = [];
          credential = [];
        }
        ∷ [];
    ice_transport_policy = all_policy;
  };
}

body-parses : parse body ≡ some root
unfolding parse valid_utf8 valid_from character spaces take_char read_value read_items read_fields
    read_key read_scalar read_string characters read_number whole_part some_digits digits
    fraction_part exponent_part
body-parses = refl

pub body-decodes : decode_session body ≡ some session
unfolding decode_session at lookup string_of uint32 decimal checked_session bad_identity
    safe_session_id safe_header decode_poll checked_poll bad_policy decode_configuration server_list
    decode_servers decode_server checked_server optional_string urls_of url_allowed
    supported_ice_url is_turn
body-decodes = rw body-parses refl

decode_session_sound_example : IsSession session
decode_session_sound_example = decode_session_sound body session body-decodes

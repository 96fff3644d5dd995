-- ===== src/Tests/Overwrite.antt =====
-- cmd/democli: the machine of Ann's, when something else answers in the place of the server.
use seatkey.Client.Session.{SameFiles}
use seatkey.Client.Overwrite.{cmd_validate-cmd_run}
use seatkey.Client.Machine.{crypto, failed, done, Machine}
use seatkey.Client.{
  open_token, print_token, load_pubkey, save_state, post_json, cached_token, load_state, Codecs,
  cmd_validate, cmd_run,
}
use seatkey.Toys.{toy_json, toy_ed25519, is_checksum, checksum, key_bytes, token_with, demo_token}
use seatkey.Common.{arith, [], ◌∷◌, ◌≤◌, none, some, ◌≡◌, refl}
use seatkey.World.{ok, err, invalid_signature}
use seatkey.Crypto.{sized_key, encode_public_key, decode_public_key, verify}
use seatkey.Crypto.Base64.{
  is_line_end, digit, is_pad, strip, symbol, four_digits, three_digits, encode, last_group,
  decode_groups, decode, two_digits,
}
use seatkey.Tests.Client.{codecs, licensed_laptop, laptop, server_key, signed, state_json-laws}

-- A server that answers with an envelope without a signature.
abbrev misread : Codecs
misread = record codecs {
  envelope_json = record {
    marshal = λ env. none;
    unmarshal = λ text. some (record { payload = ""; signature = "" });
  };
}

abbrev spoilt_laptop : Machine
spoilt_laptop = record laptop { license_file = some (1 ∷ []); pubkey_file = some server_key }

spoilt_files : SameFiles (cmd_validate misread "http://shop" licensed_laptop).1 spoilt_laptop
unfolding cmd_validate load_state cached_token post_json save_state load_pubkey print_token
    open_token verify decode_public_key encode_public_key sized_key encode symbol key_bytes checksum
    is_checksum decode decode_groups last_group two_digits three_digits four_digits strip is_pad
    digit is_line_end demo_token token_with
spoilt_files = (refl, refl)

key_read : decode_public_key server_key ≡ ok (key_bytes 32 [])
unfolding decode_public_key encode_public_key sized_key encode symbol key_bytes decode decode_groups
    last_group two_digits three_digits four_digits strip is_pad digit is_line_end
key_read = refl

opened :
    verify toy_ed25519 toy_json (key_bytes 32 []) (record { payload = ""; signature = "AA==" })
    ≡ ok demo_token
unfolding verify decode decode_groups last_group two_digits three_digits four_digits strip is_pad
    digit is_line_end checksum is_checksum
opened = refl

unopened :
    verify toy_ed25519 toy_json (key_bytes 32 []) (record { payload = ""; signature = "" })
    ≡ err invalid_signature
unfolding verify decode decode_groups last_group two_digits three_digits four_digits strip is_pad
    digit is_line_end checksum is_checksum
unopened = refl

current : 2002 ≤ demo_token.valid_until
unfolding demo_token token_with
current = omega arith

cmd_validate-cmd_run_example :
    ((cmd_run misread licensed_laptop).0 ≡ done tt)
    × ((cmd_validate misread "http://shop" licensed_laptop).0 ≡ failed (crypto invalid_signature))
    × ((cmd_run misread spoilt_laptop).0 ≡ failed (crypto invalid_signature))
cmd_validate-cmd_run_example =
    cmd_validate-cmd_run misread "http://shop" licensed_laptop spoilt_laptop (signed "AA==")
      demo_token (key_bytes 32 []) server_key (record { payload = ""; signature = "" })
      invalid_signature state_json-laws (λ n. refl) (λ n. refl) ([], refl, refl) refl key_read
      opened current (record { status = 200; body = [] }, 1 ∷ [], refl, refl, refl, refl, unopened)
      spoilt_files

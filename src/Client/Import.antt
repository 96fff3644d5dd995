-- ===== src/Client/Import.antt =====
-- cmd/democli: `offline-activate`, which takes a signed file from the vendor.
use seatkey.Client.Written.{
  write_pubkey-KeyWritten, KeyWritten, save_state-StateWritten, StateWritten, print_token-Shown,
  Shown,
}
use seatkey.Client.Run.{Holds}
use seatkey.Client.Opened.{open_token-HasOpened, Opens, HasOpened, Cached}
use seatkey.Client.Session.{SameFiles}
use seatkey.License.{Token}
use seatkey.Client.Rules.{
  or_fail-IsGiven, IsGiven, read-HasRead, trans_IsQuiet, HasRead, IsQuiet, bind_rule,
}
use seatkey.Crypto.{Bytes, Envelope, JsonLaws}
use seatkey.Client.Machine.{
  read, missing_flags, fail, Failure, ◌>>=◌, pure, ◌>>◌, verified, Command, malformed, or_fail,
  print, failed, done, Outcome, write_pubkey, Machine,
}
use seatkey.Client.{
  cmd_offline_activate, load_pubkey, open_token, CachedState, save_state, print_token, Codecs,
}
use seatkey.Common.{
  inl, ◌∙◌, inr, ◌∷◌, false, true, ◌⊎◌, some, ◌==◌, Bool, if◌then◌else◌, Option, String, ◌≡◌, refl,
}

-- The key that is used: the one given, or the cached one.
abbrev pub key_for : String → Machine → Option String
key_for pubkey m = if pubkey == "" then m.pubkey_file else some pubkey

module _ (c : Codecs) where
  -- The file holds an envelope that the key opens.
  abbrev pub Imports : (file pubkey : String) → Machine → Envelope → String → Token → Type 0
  Imports file pubkey m env text tok =
      (bytes : Bytes) × (m.around.file file ≡ some bytes)
      × (c.envelope_json.unmarshal bytes ≡ some env)
      × (key_for pubkey m ≡ some text)
      × Opens c text env tok

  abbrev pub IsImport : (file pubkey : String) → Machine → Type 0
  IsImport file pubkey m =
      (env : Envelope) × (text : String) × (tok : Token) × Imports file pubkey m env text tok

  abbrev pub HasImported : (file pubkey : String) → Machine → Outcome (Unit {0}) × Machine → Type 0
  HasImported file pubkey m (done _, m') =
      (env : Envelope) × (text : String) × (tok : Token) × Imports file pubkey m env text tok
      × Holds c m' tok
      × (m'.sent ≡ m.sent)
  HasImported file pubkey m (failed _, m') =
      (SameFiles m m' ⊎ IsImport file pubkey m) × (m'.sent ≡ m.sent)

  -- What is left once the envelope is open: the writes, and what is printed.
  abbrev pub store_import : Envelope → String → Token → Command (Unit {0})
  store_import env text tok = do
    write_pubkey text
    save_state c (record { envelope = env; device_id = tok.device_id; server = "" })
    print verified
    print_token c text env

  -- The command from the point on where the key is known, where the envelope is, and where the file is.
  abbrev pub import_with : Envelope → String → Command (Unit {0})
  import_with env text = open_token c text env >>= store_import env text

  abbrev pub import_envelope : (pubkey : String) → Envelope → Command (Unit {0})
  import_envelope pubkey env =
      (if pubkey == "" then load_pubkey else pure pubkey) >>= import_with env

  abbrev pub import_bytes : (pubkey : String) → Bytes → Command (Unit {0})
  import_bytes pubkey bytes =
      or_fail malformed (c.envelope_json.unmarshal bytes) >>= import_envelope pubkey

module _ (c : Codecs) (file pubkey : String) (m : Machine) where
  stored :
      (env : Envelope) (text : String) (tok : Token) (m1 : Machine)
      → JsonLaws c.state_json
      → Imports c file pubkey m env text tok
      → m1.sent ≡ m.sent
      → HasImported c file pubkey m (store_import c env text tok m1)
  stored env text tok m1 laws h s1 =
      bind_rule (KeyWritten text m1) (HasImported c file pubkey m) (write_pubkey text)
        (λ _. and_state) m1 (write_pubkey-KeyWritten text m1)
        (λ f m2 e. (inr (env, text, tok, h), e ∙ s1)) (λ _ m2 (k, e). after_key m2 k (e ∙ s1))
    where
      st : CachedState
      st = record { envelope = env; device_id = tok.device_id; server = "" }

      and_print : Command (Unit {0})
      and_print = print verified >> print_token c text env

      and_state : Command (Unit {0})
      and_state = save_state c st >> and_print

      after_state :
          (m3 : Machine)
          → Cached c st m3
          → m3.pubkey_file ≡ some text
          → m3.sent ≡ m.sent
          → HasImported c file pubkey m (and_print m3)
      after_state m3 cached k e = go (print_token c text env m4) (print_token-Shown c text env m4)
        where
          m4 : Machine
          m4 = record m3 { printed = verified ∷ m3.printed }

          go : (p : Outcome (Unit {0}) × Machine) → Shown c m4 p → HasImported c file pubkey m p
          go (failed f, m5) (same, e') = (inr (env, text, tok, h), e' ∙ e)
          go (done _, m5) ((a, b), e') =
              let (bytes, lf, js) = cached in
              (env, text, tok, h, (st, text, (bytes, a ∙ lf, js), b ∙ k, h.4), e' ∙ e)

      after_key :
          (m2 : Machine)
          → m2.pubkey_file ≡ some text
          → m2.sent ≡ m.sent
          → HasImported c file pubkey m (and_state m2)
      after_key m2 k e =
          bind_rule (StateWritten c st m2) (HasImported c file pubkey m) (save_state c st)
            (λ _. and_print) m2 (save_state-StateWritten c st m2 laws)
            (λ f m3 e'. (inr (env, text, tok, h), e' ∙ e))
            (λ _ m3 (cached, k', e'). after_state m3 cached (k' ∙ k) (e' ∙ e))

  opened :
      (env : Envelope) (text : String) (bytes : Bytes) (m1 : Machine)
      → JsonLaws c.state_json
      → m.around.file file ≡ some bytes
      → c.envelope_json.unmarshal bytes ≡ some env
      → key_for pubkey m ≡ some text
      → IsQuiet m m1
      → HasImported c file pubkey m (import_with c env text m1)
  opened env text bytes m1 laws f j k ((a, b, e), q, p) =
      bind_rule (HasOpened c text env m1) (HasImported c file pubkey m) (open_token c text env)
        (store_import c env text) m1 (open_token-HasOpened c text env m1)
        (λ g m2 (((a', b', e'), q', p'), x). (inl (a' ∙ a, b' ∙ b), q' ∙ q))
        (λ tok m2 (o, ((a', b', e'), q', p')).
          stored env text tok m2 laws (bytes, f, j, k, o) (q' ∙ q))

  unchanged :
      (g : Failure) (m1 : Machine) → IsQuiet m m1 → HasImported c file pubkey m (failed g, m1)
  unchanged g m1 ((a, b, e), s, p) = (inl (a, b), s)

  key_read :
      (m1 : Machine)
      → HasRead (key_for pubkey) m1 ((if pubkey == "" then load_pubkey else pure pubkey) m1)
  unfolding load_pubkey
  key_read m1 = go (pubkey == "")
    where
      go :
          (b : Bool)
          → HasRead
              (λ m. if b then m.pubkey_file else some pubkey)
              m1
              ((if b then load_pubkey else pure pubkey) m1)
      go true = read-HasRead (λ m. m.pubkey_file) m1
      go false = (refl, ((refl, refl, refl), refl, refl))

  keyed :
      (env : Envelope) (bytes : Bytes) (m1 : Machine)
      → JsonLaws c.state_json
      → m.around.file file ≡ some bytes
      → c.envelope_json.unmarshal bytes ≡ some env
      → IsQuiet m m1
      → HasImported c file pubkey m (import_envelope c pubkey env m1)
  keyed env bytes m1 laws f j q =
      bind_rule (HasRead (key_for pubkey) m1) (HasImported c file pubkey m)
        (if pubkey == "" then load_pubkey else pure pubkey) (import_with c env) m1 (key_read m1)
        (λ g m2 (q', x). unchanged g m2 (trans_IsQuiet m m1 m2 q q'))
        (λ text m2 (k, q').
          opened env text bytes m2 laws f j (same_key q ∙ k) (trans_IsQuiet m m1 m2 q q'))
    where
      same_key : IsQuiet m m1 → key_for pubkey m ≡ key_for pubkey m1
      same_key ((a, b, e), s, p) = rw b refl

  parsed :
      (bytes : Bytes) (m1 : Machine)
      → JsonLaws c.state_json
      → m.around.file file ≡ some bytes
      → IsQuiet m m1
      → HasImported c file pubkey m (import_bytes c pubkey bytes m1)
  parsed bytes m1 laws f q =
      bind_rule (IsGiven (c.envelope_json.unmarshal bytes) m1) (HasImported c file pubkey m)
        (or_fail malformed (c.envelope_json.unmarshal bytes)) (import_envelope c pubkey) m1
        (or_fail-IsGiven malformed (c.envelope_json.unmarshal bytes) m1)
        (λ g m2 q'. unchanged g m2 (trans_IsQuiet m m1 m2 q q'))
        (λ env m2 (j, q'). keyed env bytes m2 laws f j (trans_IsQuiet m m1 m2 q q'))

  -- The state can be read back from its JSON. With any files and any faults, `offline-activate` makes
  -- no request, and it leaves both files alone unless the file that it was given holds an envelope
  -- that verifies with the key it was given, or else with the cached one. When it is done, the files
  -- hold an envelope and a key for which `run` opens that token.
  pub cmd_offline_activate-HasImported :
      JsonLaws c.state_json → HasImported c file pubkey m (cmd_offline_activate c file pubkey m)
  unfolding cmd_offline_activate
  cmd_offline_activate-HasImported laws = go (file == "")
    where
      go :
          (b : Bool)
          → HasImported c file pubkey m (
              (if b
                  then fail missing_flags
                  else (read (λ m. m.around.file file) >>= import_bytes c pubkey))
                m)
      go true = (inl (refl, refl), refl)
      go false =
          bind_rule (HasRead (λ m. m.around.file file) m) (HasImported c file pubkey m)
            (read (λ m. m.around.file file)) (import_bytes c pubkey) m
            (read-HasRead (λ m. m.around.file file) m) (λ g m1 (q, x). unchanged g m1 q)
            (λ bytes m1 (f, q). parsed bytes m1 laws f q)

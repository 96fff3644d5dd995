-- ===== src/Client/Run.antt =====
-- cmd/democli: `run`, the check that a licensed application makes when it starts.
use seatkey.Client.Opened.{
  open_token-HasOpened, HasOpened, load_state-HasLoaded, HasLoaded, Opens, Cached,
}
use seatkey.Client.Rules.{read-HasRead, HasRead, trans_IsQuiet, KeepsFiles, IsQuiet}
use seatkey.License.{Token}
use seatkey.Client.Machine.{
  read, ◌>>=◌, crypto, spend, malformed, Command, unreadable, Failure, print, lapsed, failed, fail,
  licensed, done, Outcome, Machine,
}
use seatkey.Client.{
  load_state, open_token, load_pubkey, cmd_run, CachedState, require_current, Codecs,
}
use seatkey.World
use seatkey.Client.Rules.{bind_rule}
use seatkey.Common.{
  ◌∙◌, inr, sym, subst, inl, ◌⊎◌, ap, arith, false, true, ◌<◌, ◌∷◌, if◌then◌else◌, some, ltb, Bool,
  ◌≤◌, String, ℕ, ◌≡◌, refl,
}

module _ (c : Codecs) where
  -- The cached state and the cached key: the key opens the envelope of the state to the token.
  abbrev pub Holds : Machine → Token → Type 0
  Holds m tok =
      (st : CachedState) × (text : String) × Cached c st m
      × (m.pubkey_file ≡ some text)
      × Opens c text st.envelope tok

  -- A reading of the clock.
  abbrev pub IsReading : Machine → ℕ → Type 0
  IsReading m now = (k : ℕ) × (now ≡ m.around.clock k)

  abbrev pub Ran : Machine → Outcome (Unit {0}) × Machine → Type 0
  Ran m (done _, m') =
      (tok : Token) × (now : ℕ) × Holds m tok
      × IsReading m now
      × (now ≤ tok.valid_until)
      × KeepsFiles m m'
      × (m'.sent ≡ m.sent)
      × (m'.printed ≡ licensed tok ∷ m.printed)
  Ran m (failed (lapsed o), m') =
      (tok : Token) × (now : ℕ) × Holds m tok
      × IsReading m now
      × (tok.valid_until < now)
      × (o ≡ tok.offline)
      × IsQuiet m m'
  Ran m (failed _, m') = IsQuiet m m'

  pub require_current-Ran :
      (m m1 : Machine) (tok : Token) (now : ℕ)
      → Holds m tok
      → IsReading m now
      → IsQuiet m m1
      → Ran m (require_current tok now m1)
  unfolding require_current
  require_current-Ran m m1 tok now h k q = go (ltb tok.valid_until now) refl
    where
      go :
          (b : Bool)
          → ltb tok.valid_until now ≡ b
          → Ran m ((if b then fail (lapsed tok.offline) else print (licensed tok)) m1)
      go true e = (tok, now, h, k, ground arith, refl, q)
      go false e = (tok, now, h, k, ground arith, q.0, q.1, ap (λ ls. licensed tok ∷ ls) q.2)

  -- The four ways to fail before the clock is read.
  pub failed-Ran :
      (m m1 : Machine) (f : Failure)
      → IsQuiet m m1
      → (f ≡ unreadable) ⊎ ((f ≡ malformed) ⊎ ((e : World.Error) × (f ≡ crypto e)))
      → Ran m (failed f, m1)
  failed-Ran m m1 f q (inl e) = subst (λ f. Ran m (failed f, m1)) (sym e) q
  failed-Ran m m1 f q (inr (inl e)) = subst (λ f. Ran m (failed f, m1)) (sym e) q
  failed-Ran m m1 f q (inr (inr (e, p))) = subst (λ f. Ran m (failed f, m1)) (sym p) q

  -- With any files and any faults. A run that succeeds has printed a token that the cached key opens the
  -- cached envelope to, at a reading of the clock that is not after the token's deadline; a run that
  -- reports an ended license has opened a token in the same way, at a reading after its deadline, and
  -- says whether it was an offline one. Any run leaves both files as they are and makes no request, and
  -- only a successful one prints.
  pub cmd_run-Ran : (m : Machine) → Ran m (cmd_run c m)
  unfolding cmd_run load_pubkey
  cmd_run-Ran m =
      bind_rule (HasLoaded c m) (Ran m) (load_state c) loaded m (load_state-HasLoaded c m)
        (λ f m1 (q, e). failed-Ran m m1 f q (elim e [ inl x ↦ inl x | inr x ↦ inr (inl x) ]))
        (λ st m1 (h, q). after_state st m1 h q)
    where
      current : Token → Command (Unit {0})
      current tok m = require_current tok (m.around.clock m.calls) (spend m)

      opened : CachedState → String → Command (Unit {0})
      opened st text = open_token c text st.envelope >>= current

      loaded : CachedState → Command (Unit {0})
      loaded st = read (λ m. m.pubkey_file) >>= opened st

      after_token :
          (tok : Token) (m1 : Machine) → Holds m tok → IsQuiet m m1 → Ran m (current tok m1)
      after_token tok m1 h ((a, b, e), q, p) =
          require_current-Ran m (spend m1) tok (m1.around.clock m1.calls) h
            (m1.calls, ap (λ s. s.clock m1.calls) e) ((a, b, e), q, p)

      after_key :
          (st : CachedState) (text : String) (m1 : Machine)
          → Cached c st m
          → m.pubkey_file ≡ some text
          → IsQuiet m m1
          → Ran m (opened st text m1)
      after_key st text m1 h p q =
          bind_rule (HasOpened c text st.envelope m1) (Ran m) (open_token c text st.envelope)
            current m1 (open_token-HasOpened c text st.envelope m1)
            (λ f m2 (q', e). failed-Ran m m2 f (trans_IsQuiet m m1 m2 q q') (inr (inr e)))
            (λ tok m2 (o, q'). after_token tok m2 (st, text, h, p, o) (trans_IsQuiet m m1 m2 q q'))

      after_state :
          (st : CachedState) (m1 : Machine) → Cached c st m → IsQuiet m m1 → Ran m (loaded st m1)
      after_state st m1 h q =
          bind_rule (HasRead (λ m. m.pubkey_file) m1) (Ran m) (read (λ m. m.pubkey_file))
            (opened st) m1 (read-HasRead (λ m. m.pubkey_file) m1)
            (λ f m2 (q', e). failed-Ran m m2 f (trans_IsQuiet m m1 m2 q q') (inl e))
            (λ text m2 (p, q'). after_key st text m2 h (kept q p) (trans_IsQuiet m m1 m2 q q'))
        where
          kept :
              {text : String}
              → IsQuiet m m1
              → m1.pubkey_file ≡ some text
              → m.pubkey_file ≡ some text
          kept ((a, b, e), _, _) p = sym b ∙ p

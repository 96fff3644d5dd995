-- ===== src/Client/Leave.antt =====
-- cmd/democli: `deactivate`, which gives the seat up.
use seatkey.Client.Asked.{
  post_json_ok-HasAsked, cached_token-HasReadToken, HasAsked, leaving, HasReadToken, Reads,
}
use seatkey.Client.Opened.{load_state-HasLoaded, HasLoaded, Cached}
use seatkey.License.{Token}
use seatkey.Client.Machine.{
  Surroundings, Failure, ◌>>=◌, deactivated, print, remove_license, ◌>>◌, Command, spend, failed,
  Reply, done, Outcome, Machine,
}
use seatkey.Client.{
  load_state, cmd_deactivate, is_refused, CachedState, cached_token, post_json_ok, Codecs,
}
use seatkey.Client.Rules.{trans_IsQuiet, KeepsFiles, IsQuiet, bind_rule}
use seatkey.Common.{
  sym, ap, inl, inr, true, ◌∙◌, ◌⊎◌, Bool, if◌then◌else◌, [], none, ◌∷◌, false, ℕ, some, String,
  ◌≡◌, refl,
}

module _ (c : Codecs) where
  -- The seat was given up with the server, and the cached license is gone unless the file could not be
  -- removed.
  abbrev pub Left : String → Machine → Outcome (Unit {0}) × Machine → Type 0
  Left server m (done _, m') =
      (st : CachedState) × (tok : Token) × Cached c st m
      × Reads c st.envelope tok
      × ((reply : Reply) × (k : ℕ) × (m.around.answer k ≡ some reply) × (is_refused reply ≡ false))
      × (m'.sent ≡ leaving c server st tok ∷ m.sent)
      × ((k : ℕ) × (m'.license_file ≡ (if m.around.fault k then m.license_file else none)))
      × (m'.pubkey_file ≡ m.pubkey_file)
  Left server m (failed _, m') =
      KeepsFiles m m'
      × ((m'.sent ≡ m.sent)
          ⊎ ((st : CachedState) × (tok : Token) × Cached c st m
              × Reads c st.envelope tok
              × (m'.sent ≡ leaving c server st tok ∷ m.sent)))

  module _ (server : String) (m : Machine) where
    removed :
        (m1 : Machine) (st : CachedState) (tok : Token)
        → Cached c st m
        → Reads c st.envelope tok
        → ((reply : Reply) × (k : ℕ) × (m.around.answer k ≡ some reply)
            × (is_refused reply ≡ false))
        → KeepsFiles m m1
        → m1.sent ≡ leaving c server st tok ∷ m.sent
        → Left server m ((remove_license >> print deactivated) m1)
    removed m1 st tok h r answer (a, b, e) s = go (m1.around.fault m1.calls) refl
      where
        go :
            (f : Bool)
            → m1.around.fault m1.calls ≡ f
            → Left server m (
                (print deactivated)
                  (if f then spend m1 else record (spend m1) { license_file = none }))
        go true f = (
          st,
          tok,
          h,
          r,
          answer,
          s,
          (m1.calls, rw (ap (λ (x : Surroundings). x.fault m1.calls) (sym e) ∙ f) a),
          b,
        )
        go false f = (
          st,
          tok,
          h,
          r,
          answer,
          s,
          (m1.calls, rw (ap (λ (x : Surroundings). x.fault m1.calls) (sym e) ∙ f) refl),
          b,
        )

    asked :
        (m1 : Machine) (st : CachedState) (tok : Token)
        → Cached c st m
        → Reads c st.envelope tok
        → IsQuiet m m1
        → Left server m (
            (post_json_ok c server "/v1/deactivate"
                  (("license_key", tok.license_key) ∷ ("device_id", st.device_id) ∷ [])
                >> (remove_license >> print deactivated))
              m1)
    asked m1 st tok h r ((a, b, e), s, p) =
        bind_rule (HasAsked c (leaving c server st tok) m1) (Left server m)
          (post_json_ok c server "/v1/deactivate"
            (("license_key", tok.license_key) ∷ ("device_id", st.device_id) ∷ []))
          (λ _. remove_license >> print deactivated) m1
          (post_json_ok-HasAsked c server "/v1/deactivate"
            (("license_key", tok.license_key) ∷ ("device_id", st.device_id) ∷ []) m1)
          (λ f m2 ((a', b', e'), s'). (
            (a' ∙ a, b' ∙ b, e' ∙ e),
            inr (st, tok, h, r, s' ∙ ap (λ l. leaving c server st tok ∷ l) s),
          ))
          (λ _ m2 (reply, k, answer, ok, (a', b', e'), s').
            removed m2 st tok h r
              (reply, k, ap (λ (x : Surroundings). x.answer k) (sym e) ∙ answer, ok)
              (a' ∙ a, b' ∙ b, e' ∙ e) (s' ∙ ap (λ l. leaving c server st tok ∷ l) s))

    -- With any files, faults and answers. When `deactivate` is done, it has asked the server to free the
    -- seat of the cached license and device, the server has not refused, and the cached license is
    -- gone unless the file could not be removed; the key is kept. When it fails, both files are as
    -- they were, and at most that one request was made.
    pub cmd_deactivate-Left : Left server m (cmd_deactivate c server m)
    unfolding cmd_deactivate
    cmd_deactivate-Left =
        bind_rule (HasLoaded c m) (Left server m) (load_state c) rest m (load_state-HasLoaded c m)
          (λ f m1 (((a, b, e), s, p), x). ((a, b, e), inl s))
          (λ st m1 (h, q).
            bind_rule (HasReadToken c st.envelope m1) (Left server m) (cached_token c st.envelope)
              (ask st) m1 (cached_token-HasReadToken c st.envelope m1)
              (λ f m2 q'. unread f m2 (trans_IsQuiet m m1 m2 q q'))
              (λ tok m2 (r, q'). asked m2 st tok h r (trans_IsQuiet m m1 m2 q q')))
      where
        ask : CachedState → Token → Command (Unit {0})
        ask st tok =
            post_json_ok c server "/v1/deactivate"
              (("license_key", tok.license_key) ∷ ("device_id", st.device_id) ∷ [])
            >> (remove_license >> print deactivated)

        rest : CachedState → Command (Unit {0})
        rest st = cached_token c st.envelope >>= ask st

        unread : (f : Failure) (m2 : Machine) → IsQuiet m m2 → Left server m (failed f, m2)
        unread f m2 ((a, b, e), s, p) = ((a, b, e), inl s)

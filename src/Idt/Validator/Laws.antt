-- ===== src/Idt/Validator/Laws.antt =====
-- When the validator lets a request pass, and as whom.
use ai_agent_go_service.Prelude.{
  ◌+◌, ◌≤◌, ◌<◌, ◌≡◌, refl, String, ◌==◌, Bool, true, false, Option, some, none, leb, length,
  Bool-cases, inl, inr, arith, Result, ok, err,
}
use Prim.Native.String.{◌++◌ as concat}
use ai_agent_go_service.Idt.Cache.{CacheEntry, Cache, cache_max_entries, cache_key, find, is_live}
use ai_agent_go_service.Idt.Cache.Laws.{
  Entries, find-Entries, put-Entries, evict-Entries, length-put, length-evict,
}
use ai_agent_go_service.Idt.Validator.{
  ValidateResult, Validator, Verdict, Identity, allowed, denied, failed, use_cache, Validated,
  with_cache, live_entry, cached, room_for_one, remember, granted, answered, decoded, replied,
  encoded, ask, unless_cached, looked_up, validate,
}

module _ {W : Type 0} (identity : Identity W)
    (Grants : String → String → String → String → Type 0) where
  -- `Grants` holds of each token, function, user and account for which Identity answers that the
  -- token is valid and the function granted.
  pub record Answers (v : Validator) : Type 0 where
    pub grants :
        (idt function_id body reply : String) (r : ValidateResult) (w : W)
        → identity.marshal idt v.agent_id function_id ≡ ok body
        → (identity.request v.subject body v.request_timeout w).0 ≡ ok reply
        → identity.unmarshal reply ≡ ok r
        → r.valid ≡ true
        → r.function_granted ≡ true
        → Grants idt function_id r.user_id r.account_id

  -- Somebody was granted access for a token and a function with this key.
  pub record Granted (key user account : String) : Type 0 where
    pub token : String
    pub function : String
    pub same_key : cache_key identity.sha token function ≡ key
    pub was_granted : Grants token function user account

  abbrev pub Remembered : String → CacheEntry → Type 0
  Remembered k e = Granted k e.user_id e.account_id

  abbrev pub IsSound : Validator → Type 0
  IsSound v = Entries Remembered v.cache × (length v.cache ≤ cache_max_entries)

  -- A later state of the validator: all but its cache is as before, and that is sound.
  abbrev pub Kept : Validator → Validator → Type 0
  Kept v u = (c : Cache) × (with_cache v c ≡ u) × IsSound u

  -- The verdict on a token and a function at a state of the world.
  pub data Decides (v : Validator) (idt function_id : String) (w : W) : Verdict → Type 0 where
    refused : (reason : String) → Decides v idt function_id w (denied reason)
    failed_open :
        (reason : String)
        → v.fail_open ≡ true
        → Decides v idt function_id w
            (record { allow = true; deny_reason = reason; user_id = ""; account_id = "" })
    just_granted :
        (user account : String)
        → (idt == "") ≡ false
        → Grants idt function_id user account
        → Decides v idt function_id w (allowed user account)
    still_remembered :
        (e : CacheEntry)
        → (idt == "") ≡ false
        → use_cache v ≡ true
        → Granted (cache_key identity.sha idt function_id) e.user_id e.account_id
        → (identity.now w).0 < e.expires
        → Decides v idt function_id w (allowed e.user_id e.account_id)

  pub record Judges (v : Validator) (idt function_id : String) (w : W) (r : Validated W)
      : Type 0 where
    pub decides : Decides v idt function_id w r.verdict
    pub keeps : Kept v r.validator

  unchanged :
      (v : Validator) (idt function_id : String) (w w' : W) (verdict : Verdict)
      → IsSound v
      → Decides v idt function_id w verdict
      → Judges v idt function_id w (record { verdict = verdict; validator = v; world = w' })
  unchanged v idt function_id w w' verdict s d = record { decides = d; keeps = (v.cache, refl, s) }

  failed-Decides :
      (v : Validator) (idt function_id : String) (w : W) (reason : String)
      → Decides v idt function_id w (failed v reason)
  unfolding failed
  failed-Decides v idt function_id w reason = elim (Bool-cases v.fail_open) [
    | inl t ↦ simp (failed, t) (failed_open "" t)
    | inr t ↦ simp (failed, t) (refused reason)
  ]

  room_for_one-Entries :
      (c : Cache) (w : W)
      → Entries Remembered c
      → length c ≤ cache_max_entries
      → Entries Remembered (room_for_one identity c w).0
        × (length (room_for_one identity c w).0 < cache_max_entries)
  unfolding room_for_one
  room_for_one-Entries c w h l = elim (Bool-cases (leb cache_max_entries (length c))) [
    | inl t ↦
        rw t (evict-Entries Remembered (identity.now w).0 c h, length-evict (identity.now w).0 c)
    | inr t ↦ rw t (h, ground (arith, t))
  ]

  remember-IsSound :
      (v : Validator) (idt function_id user account : String) (w : W)
      → IsSound v
      → Grants idt function_id user account
      → IsSound (remember identity v idt function_id user account w).0
  unfolding remember
  remember-IsSound v idt function_id user account w (h, l) g =
      let (rh, rl) = room_for_one-Entries v.cache w h l in
      let room = (room_for_one identity v.cache w).0 in
      let key = cache_key identity.sha idt function_id in
      let entry : CacheEntry = record {
        user_id = user;
        account_id = account;
        expires = (identity.now (room_for_one identity v.cache w).1).0 + v.cache_ttl;
      } in
      (
        put-Entries Remembered key entry room
            (record { token = idt; function = function_id; same_key = refl; was_granted = g }) rh,
        omega (arith, length-put key entry room),
      )

  module _ (v : Validator) (answers : Answers v) (sound : IsSound v) (idt function_id : String)
      (present : (idt == "") ≡ false) (w : W) where
    granted-Judges :
        (b : Bool) (r : ValidateResult) (w' : W)
        → Grants idt function_id r.user_id r.account_id
        → Judges v idt function_id w (granted identity b v idt function_id r w')
    unfolding granted remember
    granted-Judges false r w' g =
        unchanged v idt function_id w w' (allowed r.user_id r.account_id) sound
          (just_granted r.user_id r.account_id present g)
    granted-Judges true r w' g = record {
      decides = just_granted r.user_id r.account_id present g;
      keeps = (_, refl, remember-IsSound v idt function_id r.user_id r.account_id w' sound g);
    }

    answered-Judges :
        (body reply : String) (r : ValidateResult) (w1 w' : W)
        → identity.marshal idt v.agent_id function_id ≡ ok body
        → (identity.request v.subject body v.request_timeout w1).0 ≡ ok reply
        → identity.unmarshal reply ≡ ok r
        → Judges v idt function_id w (answered identity v idt function_id r w')
    unfolding answered
    answered-Judges body reply r w1 w' m q u = elim (Bool-cases r.valid) [
      | inr f ↦ simp (answered, f) (unchanged v idt function_id w w' _ sound (refused _))
      | inl t ↦
          simp (answered, t)
            (elim (Bool-cases r.function_granted) [
              | inr f ↦ simp (answered, f) (unchanged v idt function_id w w' _ sound (refused _))
              | inl g ↦
                  simp (answered, g)
                    (granted-Judges (use_cache v) r w'
                      (answers.grants idt function_id body reply r w1 m q u t g))
            ])
    ]

    decoded-Judges :
        (body reply : String) (x : Result String ValidateResult) (w1 w' : W)
        → identity.marshal idt v.agent_id function_id ≡ ok body
        → (identity.request v.subject body v.request_timeout w1).0 ≡ ok reply
        → identity.unmarshal reply ≡ x
        → Judges v idt function_id w (decoded identity v idt function_id x w')
    unfolding decoded
    decoded-Judges body reply (ok r) w1 w' m q u = answered-Judges body reply r w1 w' m q u
    decoded-Judges body reply (err e) w1 w' m q u =
        unchanged v idt function_id w w' _ sound (failed-Decides v idt function_id w _)

    replied-Judges :
        (body : String) (w1 : W) (x : Result String String × W)
        → identity.marshal idt v.agent_id function_id ≡ ok body
        → (identity.request v.subject body v.request_timeout w1).0 ≡ x.0
        → Judges v idt function_id w (replied identity v idt function_id x)
    unfolding replied
    replied-Judges body w1 (ok reply, w') m q = decoded-Judges body reply _ w1 w' m q refl
    replied-Judges body w1 (err e, w') m q =
        unchanged v idt function_id w w' _ sound (failed-Decides v idt function_id w _)

    encoded-Judges :
        (x : Result String String) (w1 : W)
        → identity.marshal idt v.agent_id function_id ≡ x
        → Judges v idt function_id w (encoded identity v idt function_id x w1)
    unfolding encoded
    encoded-Judges (ok body) w1 m = replied-Judges body w1 _ m refl
    encoded-Judges (err e) w1 m = elim (Bool-cases v.fail_open) [
      | inl t ↦
          unchanged v idt function_id w w1 _ sound
            (simp t (failed_open (concat "ENCODE_ERROR:" e) t))
      | inr t ↦
          unchanged v idt function_id w w1 _ sound (simp t (refused (concat "ENCODE_ERROR:" e)))
    ]

    ask-Judges : (w1 : W) → Judges v idt function_id w (ask identity v idt function_id w1)
    unfolding ask
    ask-Judges w1 = encoded-Judges _ w1 refl

    unless_cached-Judges :
        (o : Option CacheEntry)
        → use_cache v ≡ true
        → find (cache_key identity.sha idt function_id) v.cache ≡ o
        → Judges v idt function_id w
            (unless_cached identity v idt function_id (live_entry identity o w))
    unfolding unless_cached live_entry
    unless_cached-Judges none c f = ask-Judges w
    unless_cached-Judges (some e) c f = elim (Bool-cases (is_live (identity.now w).0 e)) [
      | inr t ↦ rw (live_entry, t) (ask-Judges (identity.now w).1)
      | inl t ↦
          rw (live_entry, t)
            (unchanged v idt function_id w (identity.now w).1 _ sound (
              still_remembered e present c
                (find-Entries Remembered (cache_key identity.sha idt function_id) v.cache e sound.0
                  f)
                (ground (arith, t))))
    ]

    looked_up-Judges :
        (b : Bool)
        → use_cache v ≡ b
        → Judges v idt function_id w (looked_up identity b v idt function_id w)
    unfolding looked_up cached
    looked_up-Judges true c = unless_cached-Judges _ c refl
    looked_up-Judges false c = ask-Judges w

  pub validate-Judges :
      (v : Validator) (idt function_id : String) (w : W)
      → Answers v
      → IsSound v
      → Judges v idt function_id w (validate identity v idt function_id w)
  unfolding validate
  validate-Judges v idt function_id w answers sound = elim (Bool-cases (idt == "")) [
    | inl t ↦
        rw (validate, t)
          (unchanged v idt function_id w w _ sound (failed-Decides v idt function_id w _))
    | inr t ↦
        rw (validate, t) (looked_up-Judges v answers sound idt function_id t w (use_cache v) refl)
  ]

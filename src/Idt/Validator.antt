-- ===== src/Idt/Validator.antt =====
-- validator.go: one token checked for one function. Identity, the clock, encoding/json and SHA-256
-- are a record of the caller; the world that it acts on is passed along, and so is the validator,
-- whose cache changes.
pub mod Laws
use ai_agent_go_service.Prelude.{
  ℕ, ◌+◌, String, ◌==◌, Bool, true, false, not, ◌&&◌, List, [], ◌∷◌, Option, some, none, ltb, leb,
  length, if◌then◌else◌, Result, ok, err,
}
use Prim.Native.String.{◌++◌ as concat}
use ai_agent_go_service.Prelude.Int.{ℤ}
use ai_agent_go_service.Idt.Cache.{
  CacheEntry, Cache, cache_max_entries, cache_key, find, put, is_live, evict,
}

pub record ValidateResult : Type 0 where
  pub valid : Bool
  pub user_id : String
  pub account_id : String
  pub function_granted : Bool
  pub reason : Option String

pub record Validator : Type 0 where
  pub enabled : Bool
  pub fail_open : Bool
  pub observe_only : Bool
  pub subject : String
  pub agent_id : String
  pub function_id : String
  pub request_timeout : ℤ
  pub cache_ttl : ℕ
  pub cache : Cache

-- What Validate returns.
pub record Verdict : Type 0 where
  pub allow : Bool
  pub deny_reason : String
  pub user_id : String
  pub account_id : String

-- `marshal` encodes a token, an agent and a function; `request` is the request on a subject with a
-- timeout.
pub record Identity (W : Type 0) : Type 0 where
  pub now : W → ℕ × W
  pub sha : String → String
  pub marshal : String → String → String → Result String String
  pub request : String → String → ℤ → W → Result String String × W
  pub unmarshal : String → Result String ValidateResult

abbrev pub allowed : String → String → Verdict
allowed user account = record {
  allow = true;
  deny_reason = "";
  user_id = user;
  account_id = account;
}

abbrev pub denied : String → Verdict
denied reason = record { allow = false; deny_reason = reason; user_id = ""; account_id = "" }

reason_of : Option String → String
reason_of none = ""
reason_of (some r) = r

-- A failure lets the request pass if the validator fails open.
failed : Validator → String → Verdict
failed v reason = if v.fail_open then allowed "" "" else denied reason

unfoldable pub use_cache : Validator → Bool
use_cache v = ltb 0 v.cache_ttl && not v.observe_only

-- What a call leaves: the verdict, the validator, and the world.
pub record Validated (W : Type 0) : Type 0 where
  pub verdict : Verdict
  pub validator : Validator
  pub world : W

abbrev pub with_cache : Validator → Cache → Validator
with_cache v c = record v { cache = c }

module _ {W : Type 0} (identity : Identity W) where
  open identity use {now, sha, marshal, request, unmarshal}

  abbrev done : Verdict → Validator → W → Validated W
  done verdict v w = record { verdict = verdict; validator = v; world = w }

  -- The clock is read only for an entry that is there.
  live_entry : Option CacheEntry → W → Option CacheEntry × W
  live_entry none w = (none, w)
  live_entry (some e) w = let (t, w') = now w in (if is_live t e then some e else none, w')

  cached : Validator → String → String → W → Option CacheEntry × W
  unfolding live_entry
  cached v idt function_id w = live_entry (find (cache_key sha idt function_id) v.cache) w

  -- The clock is read for the eviction only if the cache is full.
  room_for_one : Cache → W → Cache × W
  room_for_one c w =
      if leb cache_max_entries (length c) then (let (t, w') = now w in (evict t c, w')) else (c, w)

  remember : Validator → String → String → String → String → W → Validator × W
  unfolding room_for_one
  remember v idt function_id user account w =
      let (room, w1) = room_for_one v.cache w in
      let (t, w2) = now w1 in
      let entry : CacheEntry = record {
        user_id = user;
        account_id = account;
        expires = t + v.cache_ttl;
      } in
      (with_cache v (put (cache_key sha idt function_id) entry room), w2)

  granted : Bool → Validator → String → String → ValidateResult → W → Validated W
  unfolding remember
  granted true v idt function_id r w =
      let (v', w') = remember v idt function_id r.user_id r.account_id w in
      done (allowed r.user_id r.account_id) v' w'
  granted false v idt function_id r w = done (allowed r.user_id r.account_id) v w

  answered : Validator → String → String → ValidateResult → W → Validated W
  unfolding granted reason_of
  answered v idt function_id r w =
      if not r.valid
      then done (denied (reason_of r.reason)) v w
      else if not r.function_granted
      then done (denied "DENIED_FN") v w
      else granted (use_cache v) v idt function_id r w

  decoded : Validator → String → String → Result String ValidateResult → W → Validated W
  unfolding answered failed
  decoded v idt function_id (err e) w = done (failed v (concat "DECODE_ERROR:" e)) v w
  decoded v idt function_id (ok r) w = answered v idt function_id r w

  replied : Validator → String → String → Result String String × W → Validated W
  unfolding decoded failed
  replied v idt function_id (err e, w) = done (failed v (concat "VALIDATE_ERROR:" e)) v w
  replied v idt function_id (ok reply, w) = decoded v idt function_id (unmarshal reply) w

  -- An encoding error keeps its reason, also where it lets the request pass.
  encoded : Validator → String → String → Result String String → W → Validated W
  unfolding replied
  encoded v idt function_id (err e) w =
      done
        (record {
          allow = v.fail_open;
          deny_reason = concat "ENCODE_ERROR:" e;
          user_id = "";
          account_id = "";
        })
        v w
  encoded v idt function_id (ok body) w =
      replied v idt function_id (request v.subject body v.request_timeout w)

  ask : Validator → String → String → W → Validated W
  unfolding encoded
  ask v idt function_id w = encoded v idt function_id (marshal idt v.agent_id function_id) w

  unless_cached : Validator → String → String → Option CacheEntry × W → Validated W
  unfolding ask
  unless_cached v idt function_id (some e, w) = done (allowed e.user_id e.account_id) v w
  unless_cached v idt function_id (none, w) = ask v idt function_id w

  looked_up : Bool → Validator → String → String → W → Validated W
  unfolding cached unless_cached ask
  looked_up true v idt function_id w = unless_cached v idt function_id (cached v idt function_id w)
  looked_up false v idt function_id w = ask v idt function_id w

  unfoldable pub validate : Validator → String → String → W → Validated W
  unfolding looked_up failed
  validate v idt function_id w =
      if idt == ""
      then done (failed v "MISSING_IDT") v w
      else looked_up (use_cache v) v idt function_id w

  -- The function of the environment wins over that of the caller.
  unfoldable pub validate_if_enabled : Validator → String → String → W → Validated W
  unfolding validate
  validate_if_enabled v idt function_id w =
      if not v.enabled
      then done (allowed "" "") v w
      else validate v idt (if v.function_id == "" then function_id else v.function_id) w

  unfoldable pub validate_for_function : Validator → String → String → W → Validated W
  unfolding validate
  validate_for_function v idt function_id w =
      if not v.enabled then done (allowed "" "") v w else validate v idt function_id w

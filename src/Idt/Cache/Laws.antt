-- ===== src/Idt/Cache/Laws.antt =====
-- What the operations on the cache keep.
use ai_agent_go_service.Prelude.{
  ℕ, ◌+◌, ◌≤◌, ◌<◌, ◌≡◌, String, ◌==◌, eq_iff, true, [], ◌∷◌, some, leb, length, All, Bool-cases,
  inl, inr, arith,
}
use ai_agent_go_service.Idt.Cache.{
  CacheEntry, Cache, cache_max_entries, find, put, is_live, drop_expired, evict,
}

-- Every entry satisfies the predicate.
abbrev pub Entries : (String → CacheEntry → Type 0) → Cache → Type 0
Entries P c = All (λ p. P p.0 p.1) c

module _ (P : String → CacheEntry → Type 0) where
  pub find-Entries :
      (k : String) (c : Cache) (e : CacheEntry) → Entries P c → find k c ≡ some e → P k e
  unfolding find
  find-Entries k [] e h f = absurd (ground arith)
  find-Entries k ((j, d) ∷ c) e (p, h) f = elim (Bool-cases (j == k)) [
    | inl t ↦ rw (← (eq_iff j k).0 t) (rw (← same t) p)
    | inr t ↦ find-Entries k c e h (ground (arith, t, f))
  ]
    where
      same : (j == k) ≡ true → d ≡ e
      same t = ground (arith, t, f)

  pub put-Entries :
      (k : String) (e : CacheEntry) (c : Cache) → P k e → Entries P c → Entries P (put k e c)
  unfolding put
  put-Entries k e [] p h = (p, tt)
  put-Entries k e ((j, d) ∷ c) p (q, h) = elim (Bool-cases (j == k)) [
    | inl t ↦ rw t (p, h)
    | inr t ↦ rw t (q, put-Entries k e c p h)
  ]

  drop_expired-Entries : (now : ℕ) (c : Cache) → Entries P c → Entries P (drop_expired now c)
  unfolding drop_expired
  drop_expired-Entries now [] h = tt
  drop_expired-Entries now ((k, e) ∷ c) (p, h) = elim (Bool-cases (is_live now e)) [
    | inl t ↦ rw t (p, drop_expired-Entries now c h)
    | inr t ↦ rw t (drop_expired-Entries now c h)
  ]

  pub evict-Entries : (now : ℕ) (c : Cache) → Entries P c → Entries P (evict now c)
  unfolding evict
  evict-Entries now c h = elim (Bool-cases (leb cache_max_entries (length c))) [
    | inr t ↦ rw t h
    | inl t ↦ rw t (elim (Bool-cases (leb cache_max_entries (length (drop_expired now c)))) [
      | inl u ↦ rw u tt
      | inr u ↦ rw u (drop_expired-Entries now c h)
    ])
  ]

pub length-put : (k : String) (e : CacheEntry) (c : Cache) → length (put k e c) ≤ length c + 1
unfolding put
length-put k e [] = omega arith
length-put k e ((j, d) ∷ c) = ground (arith, length-put k e c)

-- There is room for one entry more.
pub length-evict : (now : ℕ) (c : Cache) → length (evict now c) < cache_max_entries
unfolding evict
length-evict now c = ground arith

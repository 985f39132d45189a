-- ===== src/Rpc/Convergence.antt =====
-- What refreshes and removals of registrations do to one key, whatever their order.
use mathlib.Core.List.{Memᴰ}
use mathlib.Core.List.Memᴰ
use happy_server.Common.{
  ℕ, ◌+◌, ◌<◌, ◌≤◌, String, true, false, ◌||◌, none, some, List, [], ◌∷◌, arith, ◌≡◌, refl, sym, ap,
  ◌∙◌, ◌⊎◌, inl, inr, ◌==◌, eq_iff, eq_refl, Bool-cases,
}
use happy_server.Common.Json.{get_field}
use happy_server.Rpc.{Platform, RpcRegistrationTarget, RpcRegistration, encode_target, target_value}
use happy_server.Rpc.Registry.{
  Redis, RedisEntry, get, set_px, generation_of, is_older, refresh_current, refresh, refresh_many,
}

-- `cjson.decode` reads what `JSON.stringify` wrote of this target.
abbrev pub Decodes : Platform → RpcRegistrationTarget → Type 0
Decodes js t = js.cjson_decode (js.stringify (target_value t)) ≡ some (target_value t)

-- `<` is a strict order on texts.
abbrev pub IsStrictOrder : Platform → Type 0
IsStrictOrder js =
    ((g : String) → js.before g g ≡ false)
    × ((g h i : String) → js.before g h ≡ true → js.before h i ≡ true → js.before g i ≡ true)

-- Refreshes by any sockets, each at its time.
unfoldable pub refreshes : Platform → ℕ → Redis → List (ℕ × RpcRegistration) → Redis
unfolding refresh
refreshes js ttl redis [] = redis
refreshes js ttl redis ((now, r) ∷ rounds) = refreshes js ttl (refresh js redis now ttl r).0 rounds

module _ (js : Platform) (ordered : IsStrictOrder js) (ttl start : ℕ) (key : String) where
  generation_of-encode_target :
      (t : RpcRegistrationTarget)
      → Decodes js t
      → generation_of js (encode_target js t) ≡ some t.generation
  unfolding generation_of encode_target get_field
  generation_of-encode_target t decodes = ground (arith, decodes)

  -- The key holds a target, and its entry outlives the time to live after `start`.
  abbrev Holds : Redis → RpcRegistrationTarget → Type 0
  Holds redis t =
      (e : RedisEntry) × (redis key ≡ some e)
      × (e.value ≡ encode_target js t)
      × (start + ttl ≤ e.expires_at)
      × Decodes js t

  -- The second target is one of the two, and neither of them is newer.
  abbrev Fresher : RpcRegistrationTarget → RpcRegistrationTarget → RpcRegistrationTarget → Type 0
  Fresher s c t =
      ((t ≡ s) ⊎ (t ≡ c))
      × (js.before t.generation c.generation ≡ false)
      × ((g : String) → js.before s.generation g ≡ false → js.before t.generation g ≡ false)

  is_older-encode_target :
      (s c : RpcRegistrationTarget)
      → Decodes js s
      → Decodes js c
      → is_older js (encode_target js s) (encode_target js c) ≡ js.before s.generation c.generation
  unfolding is_older
  is_older-encode_target s c of_s of_c =
      ground (arith, generation_of-encode_target s of_s, generation_of-encode_target c of_c)

  same_generation :
      (s c : RpcRegistrationTarget)
      → Decodes js s
      → Decodes js c
      → (encode_target js s == encode_target js c) ≡ true
      → s.generation ≡ c.generation
  same_generation s c of_s of_c same = ground (
    arith,
    generation_of-encode_target s of_s,
    generation_of-encode_target c of_c,
    ap (λ v. generation_of js v) ((eq_iff (encode_target js s) (encode_target js c)).0 same),
  )

  module _ (redis : Redis) (now : ℕ) (s : RpcRegistrationTarget) (r : RpcRegistration)
      (e : RedisEntry) (there : redis key ≡ some e) (is_s : e.value ≡ encode_target js s)
      (outlives : start + ttl ≤ e.expires_at) (here : r.key ≡ key) (until : now < start + ttl)
      (of_s : Decodes js s) (of_r : Decodes js r.target) where
    refresh_writes :
        ((encode_target js s == encode_target js r.target)
            || js.before s.generation r.target.generation)
          ≡ true
        → (refresh js redis now ttl r).0 key
          ≡ some (record { value = encode_target js r.target; expires_at = now + ttl })
    unfolding refresh refresh_many refresh_current get set_px
    refresh_writes newer = ground (arith, is_older-encode_target s r.target of_s of_r, eq_refl key)

    refresh_keeps :
        ((encode_target js s == encode_target js r.target)
            || js.before s.generation r.target.generation)
          ≡ false
        → (refresh js redis now ttl r).0 key ≡ some e
    unfolding refresh refresh_many refresh_current get set_px
    refresh_keeps older = ground (arith, is_older-encode_target s r.target of_s of_r, eq_refl key)

  refresh-Holds :
      (redis : Redis) (now : ℕ) (s : RpcRegistrationTarget) (r : RpcRegistration)
      → Holds redis s
      → r.key ≡ key
      → start ≤ now
      → now < start + ttl
      → Decodes js r.target
      → (t : RpcRegistrationTarget) × Holds (refresh js redis now ttl r).0 t × Fresher s r.target t
  refresh-Holds redis now s r (e, there, is_s, outlives, of_s) here from until of_r =
      let written : RedisEntry = record {
        value = encode_target js r.target;
        expires_at = now + ttl;
      } in
      elim (Bool-cases (encode_target js s == encode_target js r.target)) [
        | inl same ↦
            let equal = same_generation s r.target of_s of_r same in
            (
              r.target,
              (
                written,
                refresh_writes redis now s r e there is_s outlives here until of_s of_r
                    (ground arith),
                refl,
                ground arith,
                of_r,
              ),
              (inr refl, ordered.0 r.target.generation, λ g h. rw (sym equal) h),
            )
        | inr other ↦ elim (Bool-cases (js.before s.generation r.target.generation)) [
          | inl newer ↦ (
            r.target,
            (
              written,
              refresh_writes redis now s r e there is_s outlives here until of_s of_r
                  (ground arith),
              refl,
              ground arith,
              of_r,
            ),
            (
              inr refl,
              ordered.0 r.target.generation,
              λ g h. ground (
                arith,
                Bool-cases (js.before r.target.generation g),
                ordered.1 s.generation r.target.generation g newer,
              ),
            ),
          )
          | inr not_newer ↦ (
            s,
            (
              e,
              refresh_keeps redis now s r e there is_s outlives here until of_s of_r (ground arith),
              is_s,
              outlives,
              of_s,
            ),
            (inl refl, not_newer, λ g h. h),
          )
        ]
      ]

  -- Every round is of the key, within one time to live from `start`, and the scripts read its target.
  abbrev pub InWindow : List (ℕ × RpcRegistration) → Type 0
  InWindow rounds =
      (now : ℕ) (r : RpcRegistration)
      → Memᴰ (now, r) rounds
      → (r.key ≡ key) × (start ≤ now) × (now < start + ttl) × Decodes js r.target

  -- No round offers a target newer than this one.
  abbrev pub IsFreshest : RpcRegistrationTarget → List (ℕ × RpcRegistration) → Type 0
  IsFreshest t rounds =
      (now : ℕ) (r : RpcRegistration)
      → Memᴰ (now, r) rounds
      → js.before t.generation r.target.generation ≡ false

  -- Some round offers this target.
  abbrev pub IsOffered : RpcRegistrationTarget → List (ℕ × RpcRegistration) → Type 0
  IsOffered t rounds = (now : ℕ) × (r : RpcRegistration) × Memᴰ (now, r) rounds × (r.target ≡ t)

  module _ (now : ℕ) (r : RpcRegistration) (rounds : List (ℕ × RpcRegistration)) where
    source_cons :
        (s t u : RpcRegistrationTarget)
        → (t ≡ s) ⊎ (t ≡ r.target)
        → (u ≡ t) ⊎ IsOffered u rounds
        → (u ≡ s) ⊎ IsOffered u ((now, r) ∷ rounds)
    source_cons s t u (inl a) (inl b) = inl (b ∙ a)
    source_cons s t u (inr a) (inl b) = inr (now, r, Memᴰ.head refl, sym (b ∙ a))
    source_cons s t u a (inr (later, q, m, e)) = inr (later, q, Memᴰ.tail m, e)

    offered_cons :
        (u : RpcRegistrationTarget)
        → (u ≡ r.target) ⊎ IsOffered u rounds
        → IsOffered u ((now, r) ∷ rounds)
    offered_cons u (inl e) = (now, r, Memᴰ.head refl, sym e)
    offered_cons u (inr (later, q, m, e)) = (later, q, Memᴰ.tail m, e)

    freshest_cons :
        (u : RpcRegistrationTarget)
        → js.before u.generation r.target.generation ≡ false
        → IsFreshest u rounds
        → IsFreshest u ((now, r) ∷ rounds)
    freshest_cons u here rest later q (Memᴰ.head e) =
        rw (ap (λ (p : ℕ × RpcRegistration). p.1) e) here
    freshest_cons u here rest later q (Memᴰ.tail m) = rest later q m

  refreshes-Holds :
      (redis : Redis) (s : RpcRegistrationTarget) (rounds : List (ℕ × RpcRegistration))
      → Holds redis s
      → InWindow rounds
      → (t : RpcRegistrationTarget) × Holds (refreshes js ttl redis rounds) t
        × ((t ≡ s) ⊎ IsOffered t rounds)
        × ((g : String) → js.before s.generation g ≡ false → js.before t.generation g ≡ false)
        × IsFreshest t rounds
  unfolding refreshes
  refreshes-Holds redis s [] held window =
      (s, held, inl refl, λ g h. h, λ now r m. absurd (Memᴰ.not-nil m))
  refreshes-Holds redis s ((now, r) ∷ rounds) held window =
      let (here, from, until, of_r) = window now r (Memᴰ.head refl) in
      let (t, holds, (one_of, fresh, keeps)) =
        refresh-Holds redis now s r held here from until of_r in
      let (u, still, source, older, freshest) =
        refreshes-Holds (refresh js redis now ttl r).0 t rounds holds
          (λ later q m. window later q (Memᴰ.tail m)) in
      (
        u,
        still,
        source_cons now r rounds s t u one_of source,
        λ g h. older g (keeps g h),
        freshest_cons now r rounds u (older r.target.generation fresh) freshest,
      )

  refresh_lost :
      (redis : Redis) (now : ℕ) (r : RpcRegistration)
      → redis key ≡ none
      → r.key ≡ key
      → start ≤ now
      → Decodes js r.target
      → Holds (refresh js redis now ttl r).0 r.target
  unfolding refresh refresh_many refresh_current get set_px
  refresh_lost redis now r lost here from of_r = (
    record { value = encode_target js r.target; expires_at = now + ttl },
    ground (arith, eq_refl key),
    refl,
    ground arith,
    of_r,
  )

  -- Where Redis has lost a key, then after any refreshes of it, by any sockets and in any order, within
  -- one time to live of each other, the key holds the target of one of them, and none of them had a
  -- newer generation (where the scripts read the JSON of these targets and `<` is a strict order).
  pub redis_loss_converges :
      (redis : Redis) (now : ℕ) (r : RpcRegistration) (rounds : List (ℕ × RpcRegistration))
      → redis key ≡ none
      → InWindow ((now, r) ∷ rounds)
      → (t : RpcRegistrationTarget) × (e : RedisEntry) × (refreshes js ttl redis
            ((now, r) ∷ rounds)
            key
          ≡ some e)
        × (e.value ≡ encode_target js t)
        × IsOffered t ((now, r) ∷ rounds)
        × IsFreshest t ((now, r) ∷ rounds)
  unfolding refreshes
  redis_loss_converges redis now r rounds lost window =
      let (here, from, until, of_r) = window now r (Memᴰ.head refl) in
      let (u, (e, there, is_u, lives, of_u), source, older, freshest) =
        refreshes-Holds (refresh js redis now ttl r).0 r.target rounds
          (refresh_lost redis now r lost here from of_r)
          (λ later q m. window later q (Memᴰ.tail m)) in
      (
        u,
        e,
        there,
        is_u,
        offered_cons now r rounds u source,
        freshest_cons now r rounds u (older r.target.generation (ordered.0 r.target.generation))
            freshest,
      )

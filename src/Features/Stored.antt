-- ===== src/Features/Stored.antt =====
-- What features/store.py gives back of what was put.
use mathlib.Core.Path.{subst}
use quantitative_trading.Prelude.{
  ◌>>=◌, ◌≡◌, ◌≢◌, ◌↔◌, ◌&&◌, ◌==◌, if◌then◌else◌, Bool, Option, false, All, str_eq, ap, ◌∙◌, sym,
  refl, true, some, List, [], ◌∷◌, String, eq_refl, eq_iff, arith, Bool-cases, inl, inr,
}
use quantitative_trading.Contracts.State.{Instant}
use quantitative_trading.Dict.{Dict, lookup, insert, lookup-insert}
use quantitative_trading.Features.Store.{
  LookupKey, same_key, find_key, set_key, FeatureSetRecord, FeatureStore, key_of, put, get, get_at,
}

same_key_refl : (k : LookupKey) → same_key k k ≡ true
same_key_refl k =
    rw (eq_refl k.symbol, eq_refl k.timeframe, eq_refl k.feature_version) (ground arith)

key_path :
    (a b : LookupKey)
    → a.symbol ≡ b.symbol
    → a.timeframe ≡ b.timeframe
    → a.event_time ≡ b.event_time
    → a.feature_version ≡ b.feature_version
    → a ≡ b
key_path a b s t e v =
    ap (λ x. record a { symbol = x }) s
    ∙ ap (λ x. record a { symbol = b.symbol; timeframe = x }) t
    ∙ ap (λ x. record a { symbol = b.symbol; timeframe = b.timeframe; event_time = x }) e
    ∙ ap (λ x. record b { feature_version = x }) v

same_key_iff : (a b : LookupKey) → (same_key a b ≡ true) ↔ (a ≡ b)
same_key_iff a b = (
  λ h.
      key_path a b (ground (arith, eq_iff a.symbol b.symbol, h))
        (ground (arith, eq_iff a.timeframe b.timeframe, h)) (ground (arith, h))
        (ground (arith, eq_iff a.feature_version b.feature_version, h)),
  λ e. subst (λ c. same_key a c ≡ true) e (same_key_refl a),
)

unlike : (h j k : LookupKey) → same_key h j ≡ false → same_key h k ≡ true → same_key j k ≡ false
unlike h j k other same = elim (Bool-cases (same_key j k)) [
  | inl e ↦
      let back = (same_key_iff h j).1 ((same_key_iff h k).0 same ∙ sym ((same_key_iff j k).0 e)) in
      absurd (cc (sym other ∙ back))
  | inr e ↦ e
]

same_key_sym : (a b : LookupKey) → same_key a b ≡ same_key b a
same_key_sym a b = elim (Bool-cases (same_key a b)) [
  | inl e ↦ e ∙ sym ((same_key_iff b a).1 (sym ((same_key_iff a b).0 e)))
  | inr e ↦ elim (Bool-cases (same_key b a)) [
    | inl f ↦ absurd (cc (sym e ∙ (same_key_iff a b).1 (sym ((same_key_iff b a).0 f))))
    | inr f ↦ e ∙ sym f
  ]
]

found_at : (b : Bool) (i g : String) → b ≡ false → some g ≡ (if b then some i else some g)
found_at b i g e = rw e refl

find_key-set_key :
    (k j : LookupKey) (i : String) (d : List (LookupKey × String))
    → find_key k (set_key j i d) ≡ (if same_key j k then some i else find_key k d)
find_key-set_key k j i [] = refl
find_key-set_key k j i ((h, g) ∷ d) = elim (Bool-cases (same_key h j)) [
  | inl e ↦ rw (e, ← (same_key_iff h j).0 e) (ground arith)
  | inr e ↦ elim (Bool-cases (same_key h k)) [
    | inl f ↦ rw (e, f) (found_at (same_key j k) i g (unlike h j k e f))
    | inr f ↦ rw (e, f) (find_key-set_key k j i d)
  ]
]

module _ {F : Type 0} where
  -- no lookup leads to this id
  abbrev pub IsNew : String → FeatureStore F → Type 0
  IsNew i s = All (λ (e : LookupKey × String). e.1 ≢ i) s.by_lookup

  unregistered :
      (k : LookupKey) (r : FeatureSetRecord F) (s : FeatureStore F) (d : List (LookupKey × String))
      → All (λ (e : LookupKey × String). e.1 ≢ r.features.feature_set_id) d
      → (find_key k d >>= λ i. lookup i (insert r.features.feature_set_id r s.by_id))
        ≡ (find_key k d >>= λ i. lookup i s.by_id)
  unregistered k r s [] h = refl
  unregistered k r s ((j, i) ∷ d) (ne, hs) = elim (Bool-cases (same_key j k)) [
    | inl e ↦
        rw (e, lookup-insert r.features.feature_set_id i r s.by_id)
          (ground (arith, eq_iff r.features.feature_set_id i, ne))
    | inr e ↦ rw e (unregistered k r s d hs)
  ]

  found_in :
      (b : Bool) (i : String) (was : Option String) (d e : Dict (FeatureSetRecord F))
      (r : FeatureSetRecord F)
      → lookup i d ≡ some r
      → (was >>= λ j. lookup j d) ≡ (was >>= λ j. lookup j e)
      → ((if b then some i else was) >>= λ j. lookup j d)
        ≡ (if b then some r else (was >>= λ j. lookup j e))
  found_in true i was d e r own other = own
  found_in false i was d e r own other = other

  get_at-put :
      (k : LookupKey) (r : FeatureSetRecord F) (s : FeatureStore F)
      → IsNew r.features.feature_set_id s
      → get_at k (put r s) ≡ (if same_key k (key_of r) then some r else get_at k s)
  unfolding get_at put
  get_at-put k r s new =
      let i = r.features.feature_set_id in
      rw (find_key-set_key k (key_of r) i s.by_lookup, same_key_sym k (key_of r))
        (found_in (same_key (key_of r) k) i (find_key k s.by_lookup) (insert i r s.by_id) s.by_id r
          (rw (lookup-insert i i r s.by_id, eq_refl i) refl) (unregistered k r s s.by_lookup new))

  -- A record put under an id to which no lookup leads is found under its id, and under any other id is
  -- found what was found before. By a symbol, a timeframe, a time and a version it is found exactly where
  -- all four are its own, and otherwise what was found before is.
  pub get-put :
      (r : FeatureSetRecord F) (s : FeatureStore F) (i symbol timeframe : String)
      (event_time : Instant) (feature_version : String)
      → IsNew r.features.feature_set_id s
      → let k : LookupKey = record {
        symbol = symbol;
        timeframe = timeframe;
        event_time = event_time;
        feature_version = feature_version;
      } in
        (get i (put r s) ≡ (if str_eq i r.features.feature_set_id then some r else get i s))
        × (get_at k (put r s) ≡ (
            if str_eq symbol r.features.symbol
              && str_eq timeframe r.features.timeframe
              && event_time == r.features.event_time
              && str_eq feature_version r.features.feature_version
            then some r
            else get_at k s))
  unfolding get get_at put
  get-put r s i symbol timeframe event_time feature_version new =
      let id = r.features.feature_set_id in
      (
        rw (lookup-insert id i r s.by_id) (ground (arith, eq_iff id i, eq_iff i id)),
        get_at-put _ r s new,
      )

-- ===== src/Config/Genesis/Twice.antt =====
-- Extending a genesis by two lists of accounts, one after the other.
use near_sandbox_rs.Base.{
  ℕ, ◌+◌, ◌^◌, ◌<◌, ◌≡◌, refl, sym, ap, ◌∙◌, Bool, true, false, String, Option, none, some, List,
  [], ◌∷◌, ◌++◌, append_assoc, str_eq, if◌then◌else◌, ok, decimal, parse_unsigned, unwrap_or, arith,
  parse-decimal,
}
use near_sandbox_rs.Json.{Json, IsLawful, get}
use near_sandbox_rs.Config.Account.{GenesisAccount}
use near_sandbox_rs.Config.Genesis.{extend_genesis, supply_of}
use near_sandbox_rs.Config.Genesis.Extend.{extend_genesis_exact, balance_sum, records_of}

balance_sum-append :
    (xs ys : List GenesisAccount) → balance_sum (xs ++ ys) ≡ balance_sum xs + balance_sum ys
balance_sum-append [] ys = omega arith
balance_sum-append (x ∷ xs) ys = let h = balance_sum-append xs ys in omega arith

module _ ⦃J : Json⦄ where
  records_of-append :
      (xs ys : List GenesisAccount) → records_of (xs ++ ys) ≡ records_of xs ++ records_of ys
  records_of-append [] ys = refl
  records_of-append (x ∷ xs) ys = rw (records_of-append xs ys) refl

  records_of-both :
      (records : List J.Value) (xs ys : List GenesisAccount)
      → (records ++ records_of xs) ++ records_of ys ≡ records ++ records_of (xs ++ ys)
  records_of-both records xs ys =
      append_assoc records (records_of xs) (records_of ys)
      ∙ ap (λ l. records ++ l) (sym (records_of-append xs ys))

  -- A supply that was written is read back.
  supply_of-string : (L : IsLawful) (n : ℕ) → n < 2 ^ 128 → supply_of (J.string (decimal n)) ≡ n
  unfolding supply_of
  supply_of-string L n h =
      ap (λ o. unwrap_or (parse_unsigned (2 ^ 128) (unwrap_or o "")) 0)
        (L.as_str-string (decimal n))
      ∙ ap (λ o. unwrap_or o 0) (parse-decimal (2 ^ 128) n h)

  -- A value with two fields is an object with both.
  get-both :
      (v x y : J.Value) (j k : String)
      → get v j ≡ some x
      → get v k ≡ some y
      → (m : J.Map) × (J.as_object v ≡ some m) × (J.map_get m j ≡ some x) × (J.map_get m k ≡ some y)
  get-both v x y j k h i = by_object (J.as_object v) refl h i
    where
      by_object :
          (o : Option J.Map)
          → J.as_object v ≡ o
          → (let f : Option J.Value = elim o [ none ↦ none | some m ↦ J.map_get m j ] in f ≡ some x)
          → (let f : Option J.Value = elim o [ none ↦ none | some m ↦ J.map_get m k ] in f ≡ some y)
          → (m : J.Map) × (J.as_object v ≡ some m)
            × (J.map_get m j ≡ some x)
            × (J.map_get m k ≡ some y)
      by_object none q h i = absurd (cc)
      by_object (some m) q h i = (m, q, h, i)

  -- Two ways to come to the same fields, the second of which passes over `f`.
  nested_same :
      {A : Type 0} (b c : Bool) (x x' y y' u v z f g h : A)
      → h ≡ (if b then x else if c then y else g)
      → g ≡ (if b then u else if c then v else z)
      → f ≡ (if b then x' else if c then y' else z)
      → x ≡ x'
      → y ≡ y'
      → h ≡ f
  nested_same true c x x' y y' u v z f g h p q r s t = p ∙ s ∙ sym r
  nested_same false true x x' y y' u v z f g h p q r s t = p ∙ t ∙ sym r
  nested_same false false x x' y y' u v z f g h p q r s t = p ∙ q ∙ sym r

  -- For a genesis object with a supply and an array of records, and balances that keep the supply below
  -- 2 ^ 128, extending it by one list of accounts and then by another succeeds, as extending it by both
  -- at once does, and the two results have the same fields.
  pub extend_genesis_twice :
      (L : IsLawful) (genesis supply array : J.Value) (m : J.Map) (records : List J.Value)
      (xs ys : List GenesisAccount)
      → J.as_object genesis ≡ some m
      → J.map_get m "total_supply" ≡ some supply
      → J.map_get m "records" ≡ some array
      → J.as_array array ≡ some records
      → supply_of supply + (balance_sum xs + balance_sum ys) < 2 ^ 128
      → (g h both : J.Value) × (extend_genesis genesis xs ≡ ok g)
        × (extend_genesis g ys ≡ ok h)
        × (extend_genesis genesis (xs ++ ys) ≡ ok both)
        × ((k : String) → get h k ≡ get both k)
  extend_genesis_twice L genesis supply array m records xs ys o s r a fits =
      let total = supply_of supply + balance_sum xs in
      let sum = balance_sum-append xs ys in
      let first = extend_genesis_exact L genesis supply array m records xs o s r a (omega arith) in
      let all =
        extend_genesis_exact L genesis supply array m records (xs ++ ys) o s r a (omega arith) in
      let read = supply_of-string L total (omega arith) in
      let fields =
        get-both first.0 (J.string (decimal total)) (J.array (records ++ records_of xs))
          "total_supply" "records" (first.2 "total_supply") (first.2 "records") in
      let second =
        extend_genesis_exact L first.0 (J.string (decimal total))
          (J.array (records ++ records_of xs)) fields.0 (records ++ records_of xs) ys fields.1
          fields.2 fields.3 (L.as_array-array (records ++ records_of xs)) (omega arith) in
      (
        first.0,
        second.0,
        all.0,
        first.1,
        second.1,
        all.1,
        λ k.
            nested_same (str_eq "records" k) (str_eq "total_supply" k) _ _ _ _ _ _ _ _ _ _
              (second.2 k) (first.2 k) (all.2 k)
              (ap (λ l. some (J.array l)) (records_of-both records xs ys))
              (ap (λ n. some (J.string (decimal n))) (omega arith)),
      )

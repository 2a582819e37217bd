-- ===== src/Config/Genesis/Extend.antt =====
-- `extend_genesis`: the supply and the records of the new genesis.
use near_sandbox_rs.Base.{
  ℕ, ◌+◌, ◌^◌, ◌≤◌, ◌<◌, ◌≡◌, refl, ◌∙◌, sym, String, some, List, [], ◌∷◌, ◌++◌, if◌then◌else◌, ok,
  panic, arith, append_assoc, append-nil, str_eq, decimal, true, false, ◌%◌, ap,
}
use near_sandbox_rs.Json.{Json, IsLawful, get}
use near_sandbox_rs.Json.Laws.{get-insert}
use near_sandbox_rs.Config.Account.{GenesisAccount}
use near_sandbox_rs.Config.Genesis.{
  add_u128, add_balances, supply_of, account_json, access_key_json, push_records, extend_genesis,
}

abbrev pub balance_sum : List GenesisAccount → ℕ
balance_sum [] = 0
balance_sum (a ∷ rest) = a.balance + balance_sum rest

module _ ⦃J : Json⦄ where
  add_balances-fits :
      (total : ℕ) (accounts : List GenesisAccount)
      → total + balance_sum accounts < 2 ^ 128
      → add_balances total accounts ≡ ok (total + balance_sum accounts)
  unfolding add_balances add_u128
  add_balances-fits total [] h = ground arith
  add_balances-fits total (a ∷ rest) h = ground (arith, add_balances-fits (total + a.balance) rest)

  add_u128-wraps : (a b : ℕ) → J.overflow_checks ≡ false → add_u128 a b ≡ ok ((a + b) % 2 ^ 128)
  unfolding add_u128
  add_u128-wraps a b c = ground arith

  -- In a build that does not check for overflow, adding balances to a supply below 2 ^ 128 gives the
  -- sum modulo 2 ^ 128, and never panics.
  pub add_balances-wraps :
      (total : ℕ) (accounts : List GenesisAccount)
      → J.overflow_checks ≡ false
      → total < 2 ^ 128
      → add_balances total accounts ≡ ok ((total + balance_sum accounts) % 2 ^ 128)
  unfolding add_balances add_u128
  add_balances-wraps total [] c h = ap ok (omega arith)
  add_balances-wraps total (a ∷ rest) c h = rw (add_u128-wraps total a.balance c) (
      add_balances-wraps ((total + a.balance) % 2 ^ 128) rest c (omega arith) ∙ ap ok (omega arith))

  -- In a build that checks for overflow, a supply that does not fit into 128 bits panics.
  pub add_balances-overflows :
      (total : ℕ) (accounts : List GenesisAccount)
      → J.overflow_checks ≡ true
      → total < 2 ^ 128
      → 2 ^ 128 ≤ total + balance_sum accounts
      → add_balances total accounts ≡ panic "attempt to add with overflow"
  unfolding add_balances add_u128
  add_balances-overflows total [] c h k = absurd (omega arith)
  add_balances-overflows total (a ∷ rest) c h k =
      ground (arith, add_balances-overflows (total + a.balance) rest)

  -- Two records for each account, in order.
  abbrev pub records_of : List GenesisAccount → List J.Value
  records_of [] = []
  records_of (a ∷ rest) = account_json a ∷ access_key_json a ∷ records_of rest

  push_records-records_of :
      (records : List J.Value) (accounts : List GenesisAccount)
      → push_records records accounts ≡ records ++ records_of accounts
  unfolding push_records
  push_records-records_of records [] = sym (append-nil records)
  push_records-records_of records (a ∷ rest) =
      push_records-records_of ((records ++ account_json a ∷ []) ++ access_key_json a ∷ []) rest
      ∙ simp append_assoc

  -- The map of the genesis with the new supply.
  abbrev with_supply : J.Map → ℕ → J.Map
  with_supply m total = J.map_insert m "total_supply" (J.string (decimal total))

  extend_genesis-run :
      (genesis supply array : J.Value) (m : J.Map) (records : List J.Value)
      (accounts : List GenesisAccount) (total : ℕ)
      → J.as_object genesis ≡ some m
      → J.map_get m "total_supply" ≡ some supply
      → add_balances (supply_of supply) accounts ≡ ok total
      → J.map_get (with_supply m total) "records" ≡ some array
      → J.as_array array ≡ some records
      → extend_genesis genesis accounts
        ≡ ok (
            J.object (
              J.map_insert
                (with_supply m total)
                "records"
                (J.array (push_records records accounts))))
  unfolding extend_genesis
  extend_genesis-run genesis supply array m records accounts total o s sum r a =
      rw (o, s, sum, r, a) refl

  -- For a genesis object with a supply and an array of records, and balances that keep the supply
  -- below 2 ^ 128, the new genesis exists. It has the old supply plus all balances, the old
  -- records followed by an account and an access key for each new account, and every other field
  -- as before.
  pub extend_genesis_exact :
      IsLawful
      → (genesis supply array : J.Value) (m : J.Map) (records : List J.Value)
        (accounts : List GenesisAccount)
      → J.as_object genesis ≡ some m
      → J.map_get m "total_supply" ≡ some supply
      → J.map_get m "records" ≡ some array
      → J.as_array array ≡ some records
      → supply_of supply + balance_sum accounts < 2 ^ 128
      → (g : J.Value) × (extend_genesis genesis accounts ≡ ok g)
        × ((k : String)
            → get g k ≡ (
                if str_eq "records" k
                then some (J.array (records ++ records_of accounts))
                else if str_eq "total_supply" k
                then some (J.string (decimal (supply_of supply + balance_sum accounts)))
                else get genesis k))
  extend_genesis_exact L genesis supply array m records accounts o s r a fits =
      let total = supply_of supply + balance_sum accounts in
      let sum = add_balances-fits (supply_of supply) accounts fits in
      let kept = L.map_get-map_insert m "total_supply" "records" (J.string (decimal total)) in
      (
        J.object (
            J.map_insert (with_supply m total) "records" (J.array (push_records records accounts))),
        extend_genesis-run genesis supply array m records accounts total o s sum (kept ∙ r) a,
        λ k.
            get-insert L (with_supply m total) "records" k _
            ∙ rw
                (
                  o,
                  get,
                  push_records-records_of records accounts,
                  L.map_get-map_insert m "total_supply" k (J.string (decimal total)),
                )
                refl,
      )

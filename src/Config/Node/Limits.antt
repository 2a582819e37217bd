-- ===== src/Config/Node/Limits.antt =====
-- `set_sandbox_configs_with_config`: the limits that stand in config.json afterwards.
use near_sandbox_rs.Base.{
  ℕ, ◌*◌, ◌≡◌, ◌≢◌, refl, ◌∙◌, String, Option, none, some, List, [], ◌∷◌, ok, and_then, str_eq,
  ◌||◌, false, ◌⊎◌, Option-cases, inl, inr, arith, unwrap_or, ◌>>=◌, ap, eq_refl,
}
use near_sandbox_rs.Base.Dict
use near_sandbox_rs.Base.Dict.{Dict}
use near_sandbox_rs.Json.{Json, IsLawful, get, obj}
use near_sandbox_rs.Json.Laws.{field, get-merge_obj, get-merge_obj_absent, object-ne_null}
use near_sandbox_rs.Disk.{Disk, read, create, write}
use near_sandbox_rs.Config.Account.{SandboxConfig}
use near_sandbox_rs.Config.Node.{limits, overwrite, setting, set_sandbox_configs_with_config}

module _ ⦃J : Json⦄ where
  -- The value that a path of field names leads to.
  abbrev pub path : List String → J.Value → Option J.Value
  path [] v = some v
  path (k ∷ ks) v = and_then (get v k) (path ks)

  abbrev Fields : Type 0
  Fields = List (String × J.Value)

  abbrev payload_fields : ℕ → Fields
  payload_fields a = ("json_payload_max_size", J.number a) ∷ []

  abbrev rpc_fields : ℕ → Fields
  rpc_fields a = ("limits_config", obj (payload_fields a)) ∷ []

  abbrev store_fields : ℕ → Fields
  store_fields b = ("max_open_files", J.number b) ∷ []

  abbrev limit_fields : ℕ → ℕ → Fields
  limit_fields a b = ("rpc", obj (rpc_fields a)) ∷ ("store", obj (store_fields b)) ∷ []

  -- `v'` is `v` with the two limits, and with all else that stands outside of `rpc` and `store`.
  abbrev pub Limited : ℕ → ℕ → J.Value → J.Value → Type 0
  Limited a b v v' =
      (path ("rpc" ∷ "limits_config" ∷ "json_payload_max_size" ∷ []) v' ≡ some (J.number a))
      × (path ("store" ∷ "max_open_files" ∷ []) v' ≡ some (J.number b))
      × ((k : String) → (str_eq "rpc" k || str_eq "store" k) ≡ false → get v' k ≡ get v k)

  module _ (L : IsLawful) where
    -- One name of a path through an object that was merged in.
    path-merge_obj :
        (t v : J.Value) (k : String) (ks : List String) (fields : Fields)
        → field k fields none ≡ some v
        → v ≢ J.null
        → path (k ∷ ks) (J.merge t (obj fields)) ≡ path ks (J.merge (unwrap_or (get t k) J.null) v)
    path-merge_obj t v k ks fields e ne =
        ap (λ o. and_then o (path ks)) (get-merge_obj L t v k fields e ne)

    -- A number replaces what was there.
    path-merge_number :
        (t : J.Value) (n : ℕ) (k : String)
        → path (k ∷ []) (J.merge t (obj ((k, J.number n) ∷ []))) ≡ some (J.number n)
    path-merge_number t n k =
        path-merge_obj t (J.number n) k [] ((k, J.number n) ∷ []) (rw (eq_refl k) refl)
          (L.number-ne_null n)
        ∙ ap some (L.merge_replaces _ (J.number n) (L.as_object-number n))

    payload-merge :
        (v : J.Value) (a b : ℕ)
        → path ("rpc" ∷ "limits_config" ∷ "json_payload_max_size" ∷ []) (J.merge v (limits a b))
          ≡ some (J.number a)
    unfolding limits
    payload-merge v a b =
        path-merge_obj v (obj (rpc_fields a)) "rpc" ("limits_config" ∷ "json_payload_max_size" ∷ [])
          (limit_fields a b) refl (object-ne_null L _)
        ∙ path-merge_obj (unwrap_or (get v "rpc") J.null) (obj (payload_fields a)) "limits_config"
            ("json_payload_max_size" ∷ []) (rpc_fields a) refl (object-ne_null L _)
        ∙ path-merge_number _ a "json_payload_max_size"

    files-merge :
        (v : J.Value) (a b : ℕ)
        → path ("store" ∷ "max_open_files" ∷ []) (J.merge v (limits a b)) ≡ some (J.number b)
    unfolding limits
    files-merge v a b =
        path-merge_obj v (obj (store_fields b)) "store" ("max_open_files" ∷ []) (limit_fields a b)
          refl (object-ne_null L _)
        ∙ path-merge_number _ b "max_open_files"

    rest-merge :
        (v : J.Value) (a b : ℕ) (k : String)
        → (str_eq "rpc" k || str_eq "store" k) ≡ false
        → get (J.merge v (limits a b)) k ≡ get v k
    unfolding limits
    rest-merge v a b k h = get-merge_obj_absent L v k (limit_fields a b) (ground (arith, h))

    limits-merge : (v : J.Value) (a b : ℕ) → Limited a b v (J.merge v (limits a b))
    limits-merge v a b = (payload-merge v a b, files-merge v a b, rest-merge v a b)

  -- config.json is as before, and the call has failed; or it is what a failed write of the merged value
  -- leaves, and the call has failed; or it has the merged value, and the call has succeeded.
  abbrev pub FileAfter : J.Value → Disk J.Bytes → Type 0
  FileAfter value d =
      let r = overwrite value d in
      ((Dict.at_key r.1.files "config.json" ≡ Dict.at_key d.files "config.json") × (r.0 ≢ ok tt))
      ⊎ ((bytes : J.Bytes) × (old : J.Value) × (Dict.at_key d.files "config.json" ≡ some bytes)
          × (J.parse bytes ≡ some old)
          × (r.0 ≢ ok tt)
          × (Dict.at_key r.1.files "config.json"
              ≡ some (d.left_over "config.json" (J.write (J.merge old value)))))
      ⊎ ((bytes : J.Bytes) × (old : J.Value) × (Dict.at_key d.files "config.json" ≡ some bytes)
          × (J.parse bytes ≡ some old)
          × (r.0 ≡ ok tt)
          × (Dict.at_key r.1.files "config.json" ≡ some (J.write (J.merge old value))))

  -- Whatever happens, `overwrite` changes no file but config.json, and that file is as it was, if
  -- the call fails before it creates the file; or, if writing fails, what that write leaves of the new
  -- content; or, if the call succeeds, the new content, which is what the file held before, parsed,
  -- merged with the value and written.
  pub overwrite_outcomes :
      (value : J.Value) (d : Disk J.Bytes)
      → ((name : String)
          → str_eq "config.json" name ≡ false
          → Dict.at_key (overwrite value d).1.files name ≡ Dict.at_key d.files name)
        × FileAfter value d
  unfolding overwrite read create write ◌>>=◌
  overwrite_outcomes value d = (λ name h. ground arith, outcome)
    where
      outcome : FileAfter value d
      outcome = elim (Option-cases (Dict.at_key d.files "config.json")) [
        | inl there ↦ inl (ground arith, ground arith)
        | inr (bytes, there) ↦ elim (Option-cases (J.parse bytes)) [
          | inl parses ↦ inl (ground arith, ground arith)
          | inr (old, parses) ↦ elim (Option-cases (d.create_error "config.json")) [
            | inr (e, c) ↦ inl (ground arith, ground arith)
            | inl c ↦ elim (Option-cases (d.write_error "config.json")) [
              | inr (e, w) ↦ inr (inl (bytes, old, there, parses, ground arith, ground arith))
              | inl w ↦ inr (inr (bytes, old, there, parses, ground arith, ground arith))
            ]
          ]
        ]
      ]

  pub overwrite-run :
      (value old : J.Value) (bytes : J.Bytes) (d : Disk J.Bytes)
      → Dict.at_key d.files "config.json" ≡ some bytes
      → J.parse bytes ≡ some old
      → d.create_error "config.json" ≡ none
      → d.write_error "config.json" ≡ none
      → let new = J.write (J.merge old value) in
        overwrite value d ≡ (
          ok tt,
          record d {
            files = Dict.store (Dict.store d.files "config.json" J.empty) "config.json" new;
          },
        )
  unfolding overwrite read create write ◌>>=◌
  overwrite-run value old bytes d there parses c w = ground arith

  -- With no further settings, and a config.json that can be read and written, the call succeeds,
  -- and config.json then holds a value with the two limits, which come from the config, else from
  -- the environment, else from the defaults, and whose other fields are those it had.
  pub set_sandbox_configs_limits :
      IsLawful
      → (env : Dict String) (config : SandboxConfig J.Value) (d : Disk J.Bytes) (bytes : J.Bytes)
        (old : J.Value)
      → config.additional_config ≡ none
      → Dict.at_key d.files "config.json" ≡ some bytes
      → J.parse bytes ≡ some old
      → d.create_error "config.json" ≡ none
      → d.write_error "config.json" ≡ none
      → let r = set_sandbox_configs_with_config env config d in
        let payload =
          setting env config.max_payload_size "NEAR_SANDBOX_MAX_PAYLOAD_SIZE"
            (1024 * 1024 * 1024) in
        let files = setting env config.max_open_files "NEAR_SANDBOX_MAX_FILES" 3000 in
        (r.0 ≡ ok tt)
        × ((new : J.Value) × Limited payload files old new
            × (Dict.at_key r.1.files "config.json" ≡ some (J.write new)))
  unfolding set_sandbox_configs_with_config
  set_sandbox_configs_limits L env config d bytes old plain there parses c w =
      let payload =
        setting env config.max_payload_size "NEAR_SANDBOX_MAX_PAYLOAD_SIZE" (1024 * 1024 * 1024) in
      let files = setting env config.max_open_files "NEAR_SANDBOX_MAX_FILES" 3000 in
      let ran = overwrite-run (limits payload files) old bytes d there parses c w in
      (
        rw plain (ap (λ r. r.0) ran),
        (
          J.merge old (limits payload files),
          limits-merge L old payload files,
          rw plain (ap (λ r. Dict.at_key r.1.files "config.json") ran),
        ),
      )

-- ===== src/Config/Viper.antt =====
-- What internal/config/config.go uses of viper, a library.
use cache_proxyfy.Prelude.{
  ℕ, ◌≡◌, Bytes, Bool, Option, none, some, List, [], ◌∷◌, ◌++◌, if◌then◌else◌, ◌==◌, to_upper,
  replace_byte,
}
use cache_proxyfy.Config.{UserConfig, EcosystemRateLimitConfig}

-- A call that sets viper up.
pub data Call (Value : Type 0) : Type 0 where
  set_config_name set_config_type add_config_path set_env_prefix : Bytes → Call Value
  set_env_key_replacer : (old new : ℕ) → Call Value
  automatic_env : Call Value
  set_default : (key : Bytes) (value : Value) → Call Value

-- How ReadInConfig ends.
pub data Reading : Type 0 where
  read not_found broken : Reading

module _ {Value : Type 0} where
  -- The last default of a key.
  abbrev pub default_of : List (Call Value) → Bytes → Option Value
  default_of [] k = none
  default_of (set_default j v ∷ cs) k =
      let rest = default_of cs k in
      elim rest [ some x ↦ some x | none ↦ if j == k then some v else none ]
  default_of (set_config_name n ∷ cs) k = default_of cs k
  default_of (set_config_type n ∷ cs) k = default_of cs k
  default_of (add_config_path n ∷ cs) k = default_of cs k
  default_of (set_env_prefix n ∷ cs) k = default_of cs k
  default_of (set_env_key_replacer old new ∷ cs) k = default_of cs k
  default_of (automatic_env ∷ cs) k = default_of cs k

  -- The environment variable of a key.
  abbrev pub variable_of : List (Call Value) → Bytes → Bytes
  variable_of [] k = to_upper k
  variable_of (set_env_prefix n ∷ cs) k = to_upper n ++ b'_' ∷ variable_of cs k
  variable_of (set_env_key_replacer old new ∷ cs) k = variable_of cs (replace_byte old new k)
  variable_of (set_config_name n ∷ cs) k = variable_of cs k
  variable_of (set_config_type n ∷ cs) k = variable_of cs k
  variable_of (add_config_path n ∷ cs) k = variable_of cs k
  variable_of (automatic_env ∷ cs) k = variable_of cs k
  variable_of (set_default j v ∷ cs) k = variable_of cs k

  -- Which value counts: a variable for a key that has a default or stands in the file, then the
  -- file's, then the default.
  abbrev pub resolve : (env file default : Option Value) → Option Value
  resolve (some e) (some f) d = some e
  resolve (some e) none (some d) = some e
  resolve (some e) none none = none
  resolve none (some f) d = some f
  resolve none none d = d

module _ (Rate : Type 0) where
  -- What Load uses of viper. `value` is what Unmarshal finds for a key after the calls, with the law of
  -- viper's documentation for automatic variables; `as_*` are the conversions to a field's type, which
  -- leave a Go value of that type as it is.
  pub record Viper : Type 1 where
    pub Value : Type 0
    pub int : ℕ → Value
    pub text : Bytes → Value
    pub bool : Bool → Value
    pub texts : List Bytes → Value
    pub float : ℕ → Value
    pub rate : ℕ → Rate
    pub reading : List (Call Value) → Reading
    pub file : List (Call Value) → Bytes → Option Value
    pub env : Bytes → Option Value
    pub value : List (Call Value) → Bytes → Option Value
    pub value_lem :
        (cs : List (Call Value)) (k : Bytes)
        → value cs k ≡ resolve (env (variable_of cs k)) (file cs k) (default_of cs k)
    pub as_int : Value → Option ℕ
    pub as_text : Value → Option Bytes
    pub as_bool : Value → Option Bool
    pub as_texts : Value → Option (List Bytes)
    pub as_rate : Value → Option Rate
    pub as_users : Value → Option (List UserConfig)
    pub as_overrides : Value → Option (List (Bytes × EcosystemRateLimitConfig Rate))
    pub as_int_lem : (n : ℕ) → as_int (int n) ≡ some n
    pub as_text_lem : (t : Bytes) → as_text (text t) ≡ some t
    pub as_bool_lem : (b : Bool) → as_bool (bool b) ≡ some b
    pub as_texts_lem : (ts : List Bytes) → as_texts (texts ts) ≡ some ts
    pub as_rate_lem : (n : ℕ) → as_rate (float n) ≡ some (rate n)

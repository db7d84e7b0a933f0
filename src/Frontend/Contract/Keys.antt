-- ===== src/Frontend/Contract/Keys.antt =====
-- The key that `applyConfigWrite` writes under (agent/src/backend/SocketFrontend.cpp).
use libre_darwin.Base.{
  List, subst, String, ◌≡◌, sym, Option, none, some, true, str_eq, eq_iff, Expected, value,
  unexpected, if-split,
}
use libre_darwin.Wire.{Cbor}
use libre_darwin.Frontend.Errors.{SyncError, invalid_config_value}
use libre_darwin.Frontend.State.{
  ConfigWrite, default_level, default_reason, default_location, tsa_urls, tsl_sources,
}
use libre_darwin.Frontend.Config.{or_invalid, write_of, texts, sources}
use libre_darwin.Frontend.Contract.{key_of}

module _ (key : String) where
  -- Where a write is made, it is under the key.
  abbrev Keyed : Expected SyncError ConfigWrite → Type 0
  Keyed (value write) = key_of write ≡ key
  Keyed (unexpected code) = Unit

  key_of-write :
      {r : Expected SyncError ConfigWrite} {write : ConfigWrite}
      → r ≡ value write
      → Keyed r
      → key_of write ≡ key
  key_of-write e h = subst Keyed e h

module _ (c : Cbor) where
  Keyed-or_invalid :
      {A : Type 0} (f : A → ConfigWrite) (o : Option A) {key : String}
      → ((a : A) → key_of (f a) ≡ key)
      → Keyed key (or_invalid c f o)
  Keyed-or_invalid f none h = tt
  Keyed-or_invalid f (some a) h = h a

  Keyed-array :
      {A : Type 0} (f : A → ConfigWrite) (of : List c.Value → Option A) (o : Option (List c.Value))
      {key : String}
      → ((a : A) → key_of (f a) ≡ key)
      → Keyed key
          (elim o [ none ↦ unexpected invalid_config_value | some vs ↦ or_invalid c f (of vs) ])
  Keyed-array f of none h = tt
  Keyed-array f of (some vs) h = Keyed-or_invalid f (of vs) h

  Keyed-write_of : (key : String) (v : c.Value) → Keyed key (write_of c key v)
  unfolding write_of
  Keyed-write_of key v =
      let same : (name : String) → str_eq key name ≡ true → name ≡ key =
        λ name e. sym ((eq_iff key name).0 e) in
      if-split (Keyed key) (str_eq key "DefaultLevel") _ _
        (λ e. Keyed-or_invalid default_level (c.as_text v) (λ t. same "DefaultLevel" e))
        (λ _.
          if-split (Keyed key) (str_eq key "DefaultReason") _ _
            (λ e. Keyed-or_invalid default_reason (c.as_text v) (λ t. same "DefaultReason" e))
            (λ _.
              if-split (Keyed key) (str_eq key "DefaultLocation") _ _
                (λ e.
                  Keyed-or_invalid default_location (c.as_text v) (λ t. same "DefaultLocation" e))
                (λ _.
                  if-split (Keyed key) (str_eq key "TsaUrls") _ _
                    (λ e. Keyed-array tsa_urls (texts c) (c.as_array v) (λ t. same "TsaUrls" e))
                    (λ _.
                      if-split (Keyed key) (str_eq key "TslSources") _ _
                        (λ e.
                          Keyed-array tsl_sources (sources c) (c.as_array v)
                            (λ t. same "TslSources" e))
                        (λ _. tt)))))

  pub write_of-key :
      (key : String) (v : c.Value) {write : ConfigWrite}
      → write_of c key v ≡ value write
      → key_of write ≡ key
  write_of-key key v e = key_of-write key e (Keyed-write_of key v)

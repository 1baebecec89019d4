-- ===== src/Client/Config.antt =====
-- internal/client/config/config.go. The environment (by a library), the reading of the file, JSON, and
-- the texts of numbers and durations are parameters.
pub mod File
use voldepass.Prelude.{
  String, Bool, true, false, Option, none, some, List, [], ◌∷◌, ◌==◌, if◌then◌else◌, ◌*◌, ◌^◌, ◌+◌,
}
use voldepass.Domain.{Bytes, Time, Int64, int64_zero, Result, ok, err, ◌>>=◌}
use voldepass.Flags.{Token, Flag, parse}

pub record Config : Type 0 where
  pub server_url : String
  pub storage_file : String
  pub tls_ca_cert : String
  pub tls_pinned_fingerprint : String
  pub request_timeout : Time
  pub max_retries : Int64
  pub log_level : String

-- What the program finds around it, and the libraries that read it
pub record Outside : Type 0 where
  pub xdg_data_home : String
  pub home : Option String
  pub join : String → String → String → String
  pub read_file : String → Result Bytes
  pub unmarshal : Bytes → Config → Result Config
  pub env_parse : Config → Result Config
  pub read : String → Token
  pub duration : String → Option Time
  pub int : String → Option Int64

module _ (o : Outside) where
  -- defaultStorageFile
  unfoldable pub default_storage_file : String
  default_storage_file =
      if o.xdg_data_home == ""
      then elim o.home [ none ↦ "storage.vp" | some dir ↦ o.join dir ".voldepass" "storage.vp" ]
      else o.join o.xdg_data_home "voldepass" "storage.vp"

  -- Default
  unfoldable pub default : Config
  unfolding default_storage_file
  default = record {
    server_url = "http://localhost:8080";
    storage_file = default_storage_file;
    tls_ca_cert = "";
    tls_pinned_fingerprint = "";
    request_timeout = 30 * 10 ^ 9;
    max_retries = int64_zero + 3;
    log_level = "info";
  }

  -- StringVar, DurationVar and IntVar
  abbrev pub string_var {ℓ} : {A : Type ℓ} → (String → A → A) → Option (Flag A)
  string_var put = some (record { is_bool = false; set = λ text a. some (put text a) })

  abbrev pub read_var {ℓ κ} :
      {A : Type ℓ} {B : Type κ} → (String → Option B) → (B → A → A) → Option (Flag A)
  read_var conv put = some (record {
    is_bool = false;
    set = λ text a. elim (conv text) [ none ↦ none | some b ↦ some (put b a) ];
  })

  -- The flags of preParseConfigPath
  abbrev pub pre_flags : String → Option (Flag String)
  pre_flags name = if name == "config" then string_var (λ text path. text) else none

  -- preParseConfigPath: an error of the parse is dropped.
  unfoldable pub pre_parse_config_path : List String → String
  pre_parse_config_path args = (parse o.read pre_flags args "").1

  -- applyJSONFile
  unfoldable pub apply_json_file : Config → String → Result Config
  apply_json_file cfg path = o.read_file path >>= (λ raw. o.unmarshal raw cfg)

  -- The flags of applyFlags, each with the field that it sets
  unfoldable pub flags : String → Option (Flag Config)
  flags name =
      if name == "config"
      then string_var (λ text cfg. cfg)
      else if name == "server-url"
      then string_var (λ text cfg. record cfg { server_url = text })
      else if name == "storage-file"
      then string_var (λ text cfg. record cfg { storage_file = text })
      else if name == "tls-ca-cert"
      then string_var (λ text cfg. record cfg { tls_ca_cert = text })
      else if name == "tls-pinned-fingerprint"
      then string_var (λ text cfg. record cfg { tls_pinned_fingerprint = text })
      else if name == "request-timeout"
      then read_var o.duration (λ t cfg. record cfg { request_timeout = t })
      else if name == "max-retries"
      then read_var o.int (λ n cfg. record cfg { max_retries = n })
      else if name == "log-level"
      then string_var (λ text cfg. record cfg { log_level = text })
      else none

  -- applyFlags
  unfoldable pub apply_flags : Config → List String → Result Config
  unfolding flags
  apply_flags cfg args =
      let (parsed, cfg') = parse o.read flags args cfg in parsed >>= (λ _. ok cfg')

  -- Load
  unfoldable pub load : List String → Result Config
  unfolding default pre_parse_config_path apply_json_file apply_flags
  load args =
      let path = pre_parse_config_path args in
      (if path == "" then ok default else apply_json_file default path)
      >>= o.env_parse
      >>= (λ cfg. apply_flags cfg args)

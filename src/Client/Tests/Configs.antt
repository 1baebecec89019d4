-- ===== src/Client/Tests/Configs.antt =====
-- Runs of the client's configuration.
use voldepass.Prelude.{String, ◌≡◌, refl, none, [], ◌∷◌, ◌==◌, if◌then◌else◌, eq_iff, arith}
use voldepass.Domain.{ok, err, internal}
use voldepass.Flags.{Token, ends, named, parse}
use voldepass.Client.Config.{
  Outside, default, default_storage_file, flags, apply_flags, apply_json_file, load,
  pre_parse_config_path,
}
use voldepass.Client.Config.File.{with_files, load-hidden}

abbrev read : String → Token
read x =
    if x == "-config"
    then named "config" none
    else if x == "-log-level"
    then named "log-level" none
    else ends

-- A machine where every file has the log level "debug".
abbrev outside : Outside
outside = record {
  xdg_data_home = "";
  home = none;
  join = λ dir sub name. name;
  read_file = λ path. ok [];
  unmarshal = λ raw cfg. ok (record cfg { log_level = "debug" });
  env_parse = λ cfg. ok cfg;
  read = read;
  duration = λ text. none;
  int = λ text. none;
}

-- With the flag in front, the file counts.
config_first :
    load outside ("-config" ∷ "c.json" ∷ []) ≡ ok (record (default outside) { log_level = "debug" })
unfolding load default default_storage_file apply_flags flags apply_json_file pre_parse_config_path
    parse
config_first = refl

load-hidden_example :
    load
      (with_files (λ path. err internal) outside.unmarshal outside)
      ("-log-level" ∷ "info" ∷ "-config" ∷ "c.json" ∷ [])
    ≡ load outside ("-log-level" ∷ "info" ∷ "-config" ∷ "c.json" ∷ [])
load-hidden_example =
    load-hidden outside "-log-level" "log-level" none ("info" ∷ "-config" ∷ "c.json" ∷ [])
      (λ path. err internal) outside.unmarshal refl
      (λ e. ground (arith, eq_iff "log-level" "config"))

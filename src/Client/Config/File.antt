-- ===== src/Client/Config/File.antt =====
-- When the configuration file is read.
use voldepass.Prelude.{String, ◌≡◌, ◌≢◌, refl, Option, none, List, ◌∷◌, arith, eq_iff, ap}
use voldepass.Domain.{Bytes, Result}
use voldepass.Flags.{named, parse_unknown}
use voldepass.Client.Config.{
  Config, Outside, pre_flags, pre_parse_config_path, load, default, default_storage_file,
  apply_flags, flags,
}

-- The same program around, but for what it finds in files
abbrev pub with_files :
    (String → Result Bytes) → (Bytes → Config → Result Config) → Outside → Outside
with_files read_file unmarshal o = record o { read_file = read_file; unmarshal = unmarshal }

pre_parse-hidden :
    (o : Outside) (x name : String) (value : Option String) (rest : List String)
    → o.read x ≡ named name value
    → name ≢ "config"
    → pre_parse_config_path o (x ∷ rest) ≡ ""
unfolding pre_parse_config_path
pre_parse-hidden o x name value rest e ne =
    let unknown : pre_flags o name ≡ none = ground (arith, eq_iff name "config") in
    ap (λ (r : Result (Unit {0}) × String). r.1)
      (parse_unknown o.read (pre_flags o) x name value rest "" e unknown)

-- If the first argument is a flag other than config, no configuration file is read, whatever the
-- other arguments name: Load gives the same for all contents of the files.
pub load-hidden :
    (o : Outside) (x name : String) (value : Option String) (rest : List String)
    (read_file : String → Result Bytes) (unmarshal : Bytes → Config → Result Config)
    → o.read x ≡ named name value
    → name ≢ "config"
    → load (with_files read_file unmarshal o) (x ∷ rest) ≡ load o (x ∷ rest)
unfolding load default default_storage_file apply_flags flags
load-hidden o x name value rest read_file unmarshal e ne =
    let hidden = pre_parse-hidden o x name value rest e ne in rw hidden refl

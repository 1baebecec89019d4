-- ===== src/Client/Tui/Model.antt =====
-- internal/client/tui/model.go: the state of the interface, and what a message does to it. The vault
-- is what internal/client/service/vault_manager.go offers, with the local state behind it; session,
-- vault and syncer are set together, so `vault` stands for the three. `none` is a panic: a slice
-- indexed out of range, the use of a vault that is not there, or a code with a negative number of
-- digits, for which the vault panics.
use voldepass.Prelude.{
  ℕ, ◌-◌, String, Bool, false, Option, none, some, List, [], ◌∷◌, map, length, eqb, ltb,
  if◌then◌else◌, get_elem?,
}
use voldepass.Domain.{
  Bytes, Time, DataType, data_type_credentials, data_type_text, data_type_binary, data_type_card,
  data_type_otp, RecordDto, Result, ok, err, Error,
}
use voldepass.Client.Tui.Input.{
  ◌>>=◌, Key, ctrl_c, esc, tab, shift_tab, up, down, enter, text, TextInput, Conversions,
}
use voldepass.Client.Tui.Form.{
  Payload, Field, new_payload_target, build_add_form_fields, populate_edit_fields, change_at,
}

-- What the interface uses of the vault, of fmt and of encoding/json. A payload that Get decodes is
-- one of the type that it is decoded into, and Create and Update remove no record from the list.
-- CurrentTOTP gives none where it panics.
pub record Vault : Type 1 where
  pub State : Type 0
  pub list : State → List RecordDto
  pub get_meta : String → State → Result Bytes
  pub get : String → Payload → State → Result (Bytes × Payload)
  pub create : Time → DataType → Bytes → Payload → State → Result (Unit {0}) × State
  pub update : Time → String → Bytes → Payload → State → Result (Unit {0}) × State
  pub delete : Time → String → State → Result (Unit {0}) × State
  pub current_totp : Time → String → State → Option (Result String)
  pub last_sync_at : State → Time
  pub close : State → State
  pub print_id : DataType → String → String
  pub print_meta : DataType → Bytes → String
  pub marshal_indent : Payload → String

-- screen
pub data Screen : Type 0 where
  login listing detail add_type add_form : Screen

-- The error that the interface shows.
pub data Shown : Type 0 where
  failure : Error → Shown
  conflicts : ℕ → Shown

-- tea.Cmd: what bubbletea is to do next.
pub data Cmd : Type 0 where
  idle quit blink tick sync : Cmd
  log_in : (login_name password : Bytes) → Cmd

-- The data types of addTypeOptions.
abbrev pub add_type_options : List DataType
add_type_options =
    data_type_credentials ∷ data_type_text ∷ data_type_binary ∷ data_type_card ∷ data_type_otp ∷ []

-- msg.String()
abbrev pub key_string : Key → String
key_string ctrl_c = "ctrl+c"
key_string esc = "esc"
key_string tab = "tab"
key_string shift_tab = "shift+tab"
key_string up = "up"
key_string down = "down"
key_string enter = "enter"
key_string (text s) = s

module _ (input : TextInput) (vault : Vault) (conversions : Conversions) where
  -- Model
  pub record Model : Type 0 where
    pub screen : Screen
    pub error : Option Shown
    pub login_input : input.Line
    pub password_input : input.Line
    pub focus : ℕ
    pub logging_in : Bool
    pub opened : Option vault.State
    pub syncing : Bool
    pub records : List RecordDto
    pub record_labels : List String
    pub cursor : ℕ
    pub last_sync_at : Time
    pub detail_meta : Bytes
    pub detail_payload : String
    pub otp_code : String
    pub quitting : Bool
    pub add_type_cursor : ℕ
    pub add_data_type : DataType
    pub add_fields : List (Field input)
    pub add_focus : ℕ
    pub editing_id : String
    pub confirm_delete_id : String
    pub confirm_delete_label : String

  -- tea.Msg
  pub data Msg : Type 0 where
    key : Key → Msg
    otp_tick : Msg
    session_result : Result vault.State → Msg
    sync_result : Result (List RecordDto) → Msg

  -- What Update gives: a panic, or the next state and the command.
  abbrev pub Updated : Type 0
  Updated = Option (Model × Cmd)

  -- NewModel
  unfoldable pub new_model : Model
  new_model = record {
    screen = login;
    error = none;
    login_input = input.focus (input.with_placeholder "login" input.new);
    password_input = input.as_password (input.with_placeholder "master password" input.new);
    focus = 0;
    logging_in = false;
    opened = none;
    syncing = false;
    records = [];
    record_labels = [];
    cursor = 0;
    last_sync_at = 0;
    detail_meta = [];
    detail_payload = "";
    otp_code = "";
    quitting = false;
    add_type_cursor = 0;
    add_data_type = 0;
    add_fields = [];
    add_focus = 0;
    editing_id = "";
    confirm_delete_id = "";
    confirm_delete_label = "";
  }

  -- The label of a record in the list.
  unfoldable pub label : vault.State → RecordDto → String
  label v dto = elim (vault.get_meta dto.id v) [
    | err e ↦ vault.print_id dto.data_type dto.id
    | ok [] ↦ vault.print_id dto.data_type dto.id
    | ok (b ∷ meta) ↦ vault.print_meta dto.data_type (b ∷ meta)
  ]

  -- refreshRecords
  unfoldable pub refresh_records : vault.State → Model → Model
  unfolding label
  refresh_records v m = record m {
    records = vault.list v;
    record_labels = map (label v) (vault.list v);
  }

  -- The cursor, brought back into the list.
  abbrev pub clamped : Model → Model
  clamped m =
      if ltb m.cursor (length m.records) then m else record m { cursor = length m.records - 1 }

  -- refreshOTP, for the record under the cursor
  unfoldable pub show_otp : Time → vault.State → RecordDto → Model → Option Model
  show_otp now v dto m =
      if eqb dto.data_type data_type_otp
      then elim (vault.current_totp now dto.id v) [
        | none ↦ none
        | some (err e) ↦ some (record m { otp_code = "" })
        | some (ok code) ↦ some (record m { otp_code = code })
      ]
      else some (record m { otp_code = "" })

  -- refreshOTP
  unfoldable pub refresh_otp : Time → vault.State → Model → Option Model
  unfolding show_otp
  refresh_otp now v m = elim m.records [
    | [] ↦ some m
    | _ ∷ _ ↦ get_elem? m.records m.cursor >>= λ dto. show_otp now v dto m
  ]

  -- openDetail
  unfoldable pub open_detail : Time → vault.State → RecordDto → Model → Option Model
  unfolding refresh_otp
  open_detail now v dto m = elim (vault.get dto.id (new_payload_target dto.data_type) v) [
    | err e ↦ some (record m { error = some (failure e) })
    | ok (meta, p) ↦
        refresh_otp now v
          (record m { error = none; detail_meta = meta; detail_payload = vault.marshal_indent p })
  ]

  -- startEdit
  unfoldable pub start_edit : vault.State → RecordDto → Model → Option Model
  start_edit v dto m = elim (vault.get dto.id (new_payload_target dto.data_type) v) [
    | err e ↦ some (record m { error = some (failure e) })
    | ok (meta, p) ↦ do
      fields ←
          populate_edit_fields input conversions (build_add_form_fields input dto.data_type) meta p
      fields' ← change_at input 0 input.focus fields
      some (record m {
        error = none;
        editing_id = dto.id;
        add_data_type = dto.data_type;
        add_fields = fields';
        add_focus = 0;
        screen = add_form;
      })
  ]

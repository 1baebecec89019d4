-- ===== src/Client/Cli/Flags.antt =====
-- internal/client/cli/vault.go: the flags of a record; root.go: the flag of the login. A text is its bytes
-- where it goes into a payload, and a String where it is compared.
use voldepass.Prelude.{String, ◌==◌, ◌||◌, eqb, if◌then◌else◌}
use voldepass.Domain.{
  Bytes, DataType, data_type_credentials, data_type_text, data_type_binary, data_type_card,
  data_type_otp, Int64, Result, ok, err, invalid_argument, internal,
}
use voldepass.Client.Tui.Form.{Payload, credentials, content, binary, card, otp}

-- payloadFlags
pub record PayloadFlags : Type 0 where
  pub meta : Bytes
  pub login : Bytes
  pub password : Bytes
  pub content : Bytes
  pub number : Bytes
  pub holder : Bytes
  pub expiry : Bytes
  pub cvv : Bytes
  pub secret : Bytes
  pub issuer : Bytes
  pub account : Bytes
  pub algorithm : Bytes
  pub digits : Int64
  pub period : Int64
  pub filename : Bytes

-- buildPayload
unfoldable pub build_payload : DataType → PayloadFlags → Result Payload
build_payload t f =
    if eqb t data_type_credentials
    then ok (credentials f.login f.password)
    else if eqb t data_type_text
    then ok (content f.content)
    else if eqb t data_type_binary
    then ok (binary f.content f.filename)
    else if eqb t data_type_card
    then ok (card f.number f.holder f.expiry f.cvv)
    else if eqb t data_type_otp
    then ok (
        otp (record {
          secret = f.secret;
          issuer = f.issuer;
          account = f.account;
          algorithm = f.algorithm;
          digits = f.digits;
          period = f.period;
        }))
    else err invalid_argument

-- parseDataType
unfoldable pub parse_data_type : String → Result DataType
parse_data_type s =
    if (s == "cred") || (s == "credentials")
    then ok data_type_credentials
    else if s == "text"
    then ok data_type_text
    else if s == "card"
    then ok data_type_card
    else if s == "otp"
    then ok data_type_otp
    else if s == "binary"
    then ok data_type_binary
    else err invalid_argument

-- requireLogin
unfoldable pub require_login : String → Result String
require_login login = if login == "" then err internal else ok login

-- ===== src/Server/Inmem/Idempotency/Keys.antt =====
-- The keys of the idempotency store keep owners apart.
use Prim.Native.String.{count}
use text.Mathlib.TextLemmas.{append_inj, append_cancel_left}
use voldepass.Prelude.{String, ◌≡◌}
use voldepass.Server.Inmem.Idempotency.{entry_key}

-- Owners whose ids have the same length, as UUIDs have, share no entry: equal entry keys come from
-- the same owner and the same idempotency key.
pub entry_key_injective :
    (owner owner' key key' : String)
    → count owner ≡ count owner'
    → entry_key owner key ≡ entry_key owner' key'
    → (owner ≡ owner') × (key ≡ key')
unfolding entry_key
entry_key_injective owner owner' key key' h e =
    let parts = append_inj e h in (parts.0, append_cancel_left ":" key key' parts.1)

-- ===== src/OpenVpn/Reading.antt =====
-- The connection to the management port: the loop of `collect_tcp` in
-- src/diamond/collectors/openvpn/openvpn.py.
use fullerite.Base.{ℕ, zero, suc, ◌+◌, Bool, Option, none, some, List, [], ◌∷◌, ◌++◌, if◌then◌else◌}
use fullerite.Base.Text.{Str, codes, str_eq, starts_with, strip}

-- What the n-th `fd.readline()` returns, and none where it raises a socket.error. At the end of the
-- stream it returns the empty text, as often as it is called.
pub record Stream : Type 0 where
  pub readline : ℕ → Option Str

-- `line.strip() == 'END'`
abbrev pub is_end : Str → Bool
is_end line = str_eq (strip line) (codes "END")

-- what follows a call of `readline`, for the rest of the loop
abbrev pub after_readline :
    Option Str → List Str → (List Str → Option (Option (List Str))) → Option (Option (List Str))
after_readline none lines rest = some none
after_readline (some line) lines rest =
    let read = lines ++ line ∷ [] in
    let more = rest read in if is_end line then some (some read) else more

-- The loop from the n-th line on, on fuel: none means that the fuel ran out, and `some none` that
-- the socket failed.
unfoldable pub read_until_end : ℕ → Stream → ℕ → List Str → Option (Option (List Str))
read_until_end zero s n lines = none
read_until_end (suc fuel) s n lines =
    after_readline (s.readline n) lines (read_until_end fuel s (n + 1))

abbrev pub after_greeting : Option Str → Option (Option (List Str)) → Option (Option (List Str))
after_greeting none lines = some none
after_greeting (some line) lines =
    if starts_with line (codes ">INFO:OpenVPN") then lines else some none

-- the greeting, and then the status
unfoldable pub read_status : ℕ → Stream → Option (Option (List Str))
unfolding read_until_end
read_status fuel s = after_greeting (s.readline 0) (read_until_end fuel s 1 [])

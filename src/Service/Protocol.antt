-- ===== src/Service/Protocol.antt =====
-- pkg/service/service.go: how the client reads the first lines of a service process. The five
-- regular expressions are written out as tests; the lines come from a scanner, so that they hold no
-- newline, which `.` would not match.
mod Tests
pub mod Lines
pub mod Handshake
use alkasir.Base.{
  ℕ, zero, suc, ◌+◌, Bool, true, false, Option, none, some, List, [], ◌∷◌, ◌++◌, ◌==◌, Str, codes,
  str_eq, strip_prefix, is_some, if◌then◌else◌,
}
use alkasir.Base.Dict.{Dict, insert}
use alkasir.Base.Scan.{scan}

-- The word before the first space, and what follows the space if there is one.
unfoldable pub split_space : Str → Str × Option Str
split_space [] = ([], none)
split_space (c ∷ s) =
    let (w, rest) = split_space s in if c == b' ' then ([], some s) else (c ∷ w, rest)

abbrev some_word : Str × Option Str → Option (Str × Str)
some_word (c ∷ w, some rest) = some (c ∷ w, rest)
some_word _ = none

abbrev last_word : Str × Option Str → Option Str
last_word (c ∷ w, none) = some (c ∷ w)
last_word _ = none

infixl 5 ◌>>=◌
abbrev ◌>>=◌ : {A B : Type 0} → Option A → (A → Option B) → Option B
none >>= f = none
some a >>= f = f a

-- `([^ ]+) ([^ ]+) ([^ ]+)$`
unfoldable pub three_words : Str → Option (Str × Str × Str)
unfolding split_space
three_words s = do
  (a, s') ← some_word (split_space s)
  (b, s'') ← some_word (split_space s')
  c ← last_word (split_space s'')
  some (a, b, c)

pub data Line : Type 0 where
  error done : Line
  expose : Str → Str → Str → Line
  version : Line
  parent : Str → Str → Str → Line
  other : Line

-- The `else if` chain of initService.
unfoldable pub parse_line : Str → Line
unfolding strip_prefix str_eq three_words
parse_line line =
    if is_some (strip_prefix (codes "ERROR") line)
    then error
    else if str_eq line (codes "DONE")
    then done
    else elim (strip_prefix (codes "EXPOSE ") line >>= three_words) [
      | some (method, protocol, addr) ↦ expose method protocol addr
      | none ↦
          if is_some (strip_prefix (codes "VERSION ") line)
          then version
          else elim (strip_prefix (codes "PARENT ") line >>= three_words) [
            | some (method, protocol, addr) ↦ parent method protocol addr
            | none ↦ other
          ]
    ]

-- What registerMethod is called with: name, protocol and bind address.
pub record Exposed : Type 0 where
  pub name : Str
  pub protocol : Str
  pub bind_addr : Str

-- `s.Response` and the methods registered so far, oldest first.
pub record Response : Type 0 where
  pub vars : Dict Str
  pub methods : List Exposed

pub data InitError : Type 0 where
  service_error unhandled_line : InitError

-- What one line does: the loop goes on with a response, or stops with an error or none.
pub data Reading : Type 0 where
  go : Response → Reading
  stop : Option InitError → Reading

unfoldable pub read_line : Line → Response → Reading
read_line error r = stop (some service_error)
read_line done r = stop none
read_line (expose method protocol addr) r = go (record {
  vars = insert (codes "protocol") protocol (insert (codes "bindaddr") addr r.vars);
  methods = r.methods ++ record { name = method; protocol = protocol; bind_addr = addr } ∷ [];
})
read_line version r = go r
read_line (parent method protocol addr) r =
    go (record r { vars = insert (codes "parentaddr") addr r.vars })
read_line other r = stop (some unhandled_line)

-- The scanning loop of initService; the second part is its error, if any. What is registered before
-- an error stays.
unfoldable pub init_lines : List Str → Response → Response × Option InitError
init_lines [] r = (r, none)
init_lines (line ∷ lines) r = elim (read_line (parse_line line) r) [
  | go r' ↦ init_lines lines r'
  | stop e ↦ (r, e)
]

-- What follows `cmd.Start` in initService, on the output of the process up to its end. An error of
-- the scanner ends the loop and is not looked at.
unfoldable pub init_service : Str → Response → Response × Option InitError
init_service stdout r = init_lines (scan stdout).0 r

-- ===== src/Service/Server/Lines.antt =====
-- pkg/service/server/server.go, the lines of the protocol: formatline and the Print methods. What is
-- printed is the text before the newline that Fprintln adds; `none` is formatline's panic.
use alkasir.Base.{
  ℕ, Bool, true, false, ◌&&◌, ◌||◌, Option, none, some, List, [], ◌∷◌, ◌++◌, leb, ◌==◌, Str, codes,
  if◌then◌else◌,
}

-- `[[:alnum:]_-]`
abbrev is_keyword_byte : ℕ → Bool
is_keyword_byte c =
    (leb b'0' c && leb c b'9')
    || (leb b'A' c && leb c b'Z')
    || (leb b'a' c && leb c b'z')
    || c == b'_'
    || c == b'-'

unfoldable pub all_keyword : Str → Bool
all_keyword [] = true
all_keyword (c ∷ s) = is_keyword_byte c && all_keyword s

-- `^[[:alnum:]_-]+$`
unfoldable pub keyword_is_safe : Str → Bool
unfolding all_keyword
keyword_is_safe [] = false
keyword_is_safe (c ∷ s) = all_keyword (c ∷ s)

unfoldable pub arg_is_safe : Str → Bool
arg_is_safe [] = true
arg_is_safe (b ∷ arg) = if leb 0x80 b || b == 0 || b == 10 then false else arg_is_safe arg

unfoldable pub write_args : List Str → Option Str
unfolding arg_is_safe
write_args [] = some []
write_args (x ∷ v) = elim (write_args v) [
  | none ↦ none
  | some rest ↦ if arg_is_safe x then some (b' ' ∷ x ++ rest) else none
]

unfoldable pub formatline : Str → List Str → Option Str
unfolding keyword_is_safe write_args
formatline keyword v =
    if keyword_is_safe keyword
    then elim (write_args v) [ none ↦ none | some rest ↦ some (keyword ++ rest) ]
    else none

-- The handler's `method` and `version`.
pub record MethodHandler : Type 0 where
  pub method : Str
  pub version : Str

-- The lines of PrintVersion (its first step), PrintDone (before its monitor starts), PrintError,
-- PrintParent and PrintExpose.
unfoldable pub version_line : MethodHandler → Option Str
unfolding formatline
version_line h = formatline (codes "VERSION") (h.version ∷ [])

unfoldable pub done_line : Option Str
unfolding formatline
done_line = formatline (codes "DONE") []

unfoldable pub print_error : MethodHandler → Str → Option Str
unfolding formatline
print_error h text = formatline (codes "ERROR") (h.method ∷ text ∷ [])

unfoldable pub print_parent : MethodHandler → Str → Str → Option Str
unfolding formatline
print_parent h proto addr = formatline (codes "PARENT") (h.method ∷ proto ∷ addr ∷ [])

unfoldable pub print_expose : MethodHandler → Str → Str → Option Str
unfolding formatline
print_expose h protocol addr = formatline (codes "EXPOSE") (h.method ∷ protocol ∷ addr ∷ [])

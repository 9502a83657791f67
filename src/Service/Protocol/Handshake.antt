-- ===== src/Service/Protocol/Handshake.antt =====
-- A whole start of a service, from the bytes that the process writes to what the client keeps.
use alkasir.Base.{
  ◌≡◌, refl, ◌≢◌, ◌∙◌, ◌⊎◌, inl, inr, true, Option, none, some, List, [], ◌∷◌, ◌++◌, arith, Str,
  codes, All,
}
use alkasir.Base.Dict.{lookup, insert, lookup-insert_self, lookup-insert_ne}
use alkasir.Base.Scan.{write_lines, IsLine, scan-write_lines}
use alkasir.Service.Server.Lines.{MethodHandler, arg_is_safe, version_line, done_line, print_expose}
use alkasir.Service.Protocol.{
  Line, expose, version, parent, other, error, done, parse_line, Response, init_lines, init_service,
  InitError, read_line, go, stop,
}
use alkasir.Service.Protocol.Lines.{IsWord, parse_line-print_expose, parse_line-others}

-- A line that is neither an error nor unknown.
abbrev pub IsBenign : Str → Type 0
IsBenign l = (parse_line l ≢ error) × (parse_line l ≢ other)

read_line-benign :
    (l : Line) (r : Response)
    → l ≢ error
    → l ≢ other
    → (read_line l r ≡ stop none) ⊎ ((r' : Response) × (read_line l r ≡ go r'))
unfolding read_line
read_line-benign error r e o = absurd (e refl)
read_line-benign done r e o = inl refl
read_line-benign (expose m p a) r e o = inr (_, refl)
read_line-benign version r e o = inr (_, refl)
read_line-benign (parent m p a) r e o = inr (_, refl)
read_line-benign other r e o = absurd (o refl)

init_lines-cons :
    (l : Str) (ls : List Str) (r r' : Response)
    → read_line (parse_line l) r ≡ go r'
    → init_lines (l ∷ ls) r ≡ init_lines ls r'
unfolding init_lines
init_lines-cons l ls r r' e = rw (e, init_lines)

init_lines-stop :
    (l : Str) (ls : List Str) (r : Response) (x : Option InitError)
    → read_line (parse_line l) r ≡ stop x
    → init_lines (l ∷ ls) r ≡ (r, x)
unfolding init_lines
init_lines-stop l ls r x e = rw (e, init_lines)

-- A process whose output ends before DONE is not noticed: the start succeeds on every list of lines
-- that holds no ERROR line and no line that is unknown, whether or not DONE is among them.
pub init_lines_unfinished :
    (ls : List Str) (r : Response) → All IsBenign ls → (init_lines ls r).1 ≡ none
init_lines_unfinished [] r h = unfold init_lines in refl
init_lines_unfinished (l ∷ ls) r ((e, o), h) = elim (read_line-benign (parse_line l) r e o) [
  | inl ends ↦ rw (init_lines-stop l ls r none ends)
  | inr (r', goes) ↦ rw (init_lines-cons l ls r r' goes) (init_lines_unfinished ls r' h)
]

-- The response after an EXPOSE line.
abbrev exposed : Str → Str → Str → Response → Response
exposed method protocol addr r = record {
  vars = insert (codes "protocol") protocol (insert (codes "bindaddr") addr r.vars);
  methods = r.methods ++ record { name = method; protocol = protocol; bind_addr = addr } ∷ [];
}

bindaddr_not_protocol : codes "protocol" ≢ codes "bindaddr"
bindaddr_not_protocol = ground arith

nothing : arg_is_safe [] ≡ true
unfolding arg_is_safe
nothing = refl

-- What the three kinds of line do, from the calls that print them.
module _ (h : MethodHandler) (r : Response) where
  reads_exposing :
      (protocol addr line : Str)
      → IsWord h.method
      → IsWord protocol
      → IsWord addr
      → print_expose h protocol addr ≡ some line
      → read_line (parse_line line) r ≡ go (exposed h.method protocol addr r)
  unfolding read_line
  reads_exposing protocol addr line hm hp ha e =
      let (line', printed, parsed) = parse_line-print_expose h protocol addr hm hp ha in
      let same : line ≡ line' = cc (e, printed) in rw (same, parsed)

  reads_greeting :
      (line : Str)
      → arg_is_safe h.method ≡ true
      → arg_is_safe h.version ≡ true
      → version_line h ≡ some line
      → read_line (parse_line line) r ≡ go r
  unfolding read_line
  reads_greeting line hm hv e =
      let (_, line', _, _, printed, _, _, parsed, _) = parse_line-others h [] hm hv nothing in
      let same : line ≡ line' = cc (e, printed) in rw (same, parsed)

  reads_finish : (line : Str) → done_line ≡ some line → read_line (parse_line line) r ≡ stop none
  unfolding done_line parse_line read_line
  reads_finish line e = let same : line ≡ codes "DONE" = cc e in rw same

-- A process that prints its version, one EXPOSE line and DONE, and then any lines at all, starts
-- without an error; the client then holds the address and the protocol that were exposed, and has
-- registered the one method behind those it had. The words hold no space and only bytes that may be
-- printed, and the lines fit the scanner.
pub handshake :
    (h : MethodHandler) (protocol addr greeting exposing finish : Str) (r : Response)
    (later : List Str)
    → IsWord h.method
    → IsWord protocol
    → IsWord addr
    → arg_is_safe h.version ≡ true
    → version_line h ≡ some greeting
    → print_expose h protocol addr ≡ some exposing
    → done_line ≡ some finish
    → All IsLine (greeting ∷ exposing ∷ finish ∷ later)
    → let (r', e) = init_service (write_lines (greeting ∷ exposing ∷ finish ∷ later)) r in
      (e ≡ none)
      × (lookup (codes "bindaddr") r'.vars ≡ some addr)
      × (lookup (codes "protocol") r'.vars ≡ some protocol)
      × (r'.methods
          ≡ r.methods ++ record { name = h.method; protocol = protocol; bind_addr = addr } ∷ [])
unfolding init_service
handshake h protocol addr greeting exposing finish r later hm hp ha hv g x f lines =
    let r' = exposed h.method protocol addr r in
    rw
      (
        scan-write_lines (greeting ∷ exposing ∷ finish ∷ later) lines,
        init_lines-cons greeting (exposing ∷ finish ∷ later) r r
            (reads_greeting h r greeting hm.2 hv g),
        init_lines-cons exposing (finish ∷ later) r r'
            (reads_exposing h r protocol addr exposing hm hp ha x),
        init_lines-stop finish later r' none (reads_finish h r' finish f),
      )
      (
        refl,
        lookup-insert_ne (codes "protocol") (codes "bindaddr") protocol
              (insert (codes "bindaddr") addr r.vars) bindaddr_not_protocol
            ∙ lookup-insert_self (codes "bindaddr") addr r.vars,
        lookup-insert_self (codes "protocol") protocol (insert (codes "bindaddr") addr r.vars),
        refl,
      )

-- ===== src/Service/Protocol/Tests.antt =====
-- A transport process that exposes a SOCKS5 proxy.
use alkasir.Base.{◌≡◌, refl, none, some, [], ◌∷◌, arith, Str, codes}
use alkasir.Base.Dict.{lookup}
use alkasir.Base.Scan.{write_lines}
use alkasir.Service.Server.Lines.{MethodHandler, arg_is_safe, version_line, done_line, print_expose}
use alkasir.Service.Protocol.{
  parse_line, Response, unhandled_line, read_line, init_lines, init_service,
}
use alkasir.Service.Protocol.Handshake.{handshake}

abbrev obfs4 : MethodHandler
obfs4 = record { method = codes "obfs4"; version = codes "1.0" }

abbrev empty : Response
empty = record { vars = []; methods = [] }

abbrev addr : Str
addr = codes "127.0.0.1:9"

handshake_example :
    let (r', e) =
      init_service
        (write_lines
          (codes "VERSION 1.0" ∷ codes "EXPOSE obfs4 socks5 127.0.0.1:9" ∷ codes "DONE" ∷ []))
        empty in
    (e ≡ none)
    × (lookup (codes "bindaddr") r'.vars ≡ some addr)
    × (lookup (codes "protocol") r'.vars ≡ some (codes "socks5"))
    × (r'.methods
        ≡ record { name = codes "obfs4"; protocol = codes "socks5"; bind_addr = addr } ∷ [])
unfolding arg_is_safe version_line print_expose done_line
handshake_example =
    handshake obfs4 (codes "socks5") addr (codes "VERSION 1.0")
      (codes "EXPOSE obfs4 socks5 127.0.0.1:9") (codes "DONE") empty []
      (omega arith, ground arith, refl) (omega arith, ground arith, refl)
      (omega arith, ground arith, refl) refl refl refl refl (ground arith)

-- A space in the method's name passes the server's checks, and the client refuses the line.
spaced :
    print_expose (record obfs4 { method = codes "a b" }) (codes "socks5") addr
    ≡ some (codes "EXPOSE a b socks5 127.0.0.1:9")
unfolding print_expose
spaced = refl

spaced_refused :
    init_lines (codes "EXPOSE a b socks5 127.0.0.1:9" ∷ []) empty ≡ (empty, some unhandled_line)
unfolding init_lines parse_line read_line
spaced_refused = refl

-- ===== src/Protocol/FtpRequest/Commands.antt =====
-- Which command the first word of a request names.
use in_memory_object_storage.Common.{
  ℕ, ◌+◌, ◌≤◌, ◌≡◌, ◌≢◌, ◌⊎◌, ◌↔◌, ◌∙◌, refl, sym, ap, inl, inr, false, List, [], ◌∷◌, ◌++◌, map,
  All, Option, some, none, Bool-cases, arith, ok, ◌>>=◌,
}
use in_memory_object_storage.Common.Text.{Bytes, codes, text_eq, text_eq_iff, Lacks}
use in_memory_object_storage.Common.Dict.{Dict, lookup}
use in_memory_object_storage.Utils.Case.{to_upper, IsAscii, to_upper_case-IsAscii}
use in_memory_object_storage.Utils.Split.Tokens.{join}
use in_memory_object_storage.Protocol.FtpRequest.{
  FtpCommand, FtpParser, command_map, with_command, lookup_command, parse,
}
use in_memory_object_storage.Protocol.FtpRequest.Parsing.{parse-line}

-- The commands as RFC 959 spells them.
unfoldable pub spelling : FtpCommand → Bytes
spelling FtpCommand.user = codes "USER"
spelling FtpCommand.pass = codes "PASS"
spelling FtpCommand.cwd = codes "CWD"
spelling FtpCommand.quit = codes "QUIT"
spelling FtpCommand.type = codes "TYPE"
spelling FtpCommand.pasv = codes "PASV"
spelling FtpCommand.retr = codes "RETR"
spelling FtpCommand.stor = codes "STOR"
spelling FtpCommand.dele = codes "DELE"
spelling FtpCommand.list = codes "LIST"
spelling FtpCommand.unrecognized = []

-- A word is a name in capitals, letter by letter, each as it is or the small letter, 32 above it.
unfoldable pub Spells : Bytes → Bytes → Type 0
Spells [] [] = Unit
Spells (c ∷ word) (n ∷ name) = ((c ≡ n) ⊎ (c ≡ n + 32)) × Spells word name
Spells _ _ = ⊥

Capitals : Bytes → Type 0
Capitals name = All (λ n. (b'A' ≤ n) × (n ≤ b'Z')) name

to_upper-capital : (c n : ℕ) → b'A' ≤ n → n ≤ b'Z' → (to_upper c ≡ n) ↔ ((c ≡ n) ⊎ (c ≡ n + 32))
unfolding to_upper
to_upper-capital c n h k = ground (arith, h, k)

map-to_upper : (word name : Bytes) → Capitals name → (map to_upper word ≡ name) ↔ Spells word name
unfolding Spells Capitals
map-to_upper [] [] h = (λ e. tt, λ e. refl)
map-to_upper [] (n ∷ name) h = (λ e. cc, λ e. absurd e)
map-to_upper (c ∷ word) [] h = (λ e. cc, λ e. absurd e)
map-to_upper (c ∷ word) (n ∷ name) ((l, u), h) =
    let (there, back) = to_upper-capital c n l u in
    let (there', back') = map-to_upper word name h in
    (
      λ e. (there (ground (arith, e)), there' (ground (arith, e))),
      λ (s, t). ground (arith, back s, back' t),
    )

spelling-Capitals : (c : FtpCommand) → Capitals (spelling c)
unfolding spelling Capitals
spelling-Capitals FtpCommand.unrecognized = tt
spelling-Capitals _ = omega arith

-- An entry of the map that is found has its key.
lookup-spelling :
    (key : Bytes) (c : FtpCommand) (d : Dict FtpCommand)
    → All (λ e. e.0 ≡ spelling e.1) d
    → lookup key d ≡ some c
    → key ≡ spelling c
unfolding lookup
lookup-spelling key c [] h e = cc
lookup-spelling key c ((k, v) ∷ d) (same, h) e = elim (Bool-cases (text_eq k key)) [
  | inl t ↦
      let found : v ≡ c = ground (arith, t, e) in
      sym ((text_eq_iff k key).0 t) ∙ same ∙ ap spelling found
  | inr t ↦ lookup-spelling key c d h (ground (arith, t, e))
]

command_map-spelling : All (λ e. e.0 ≡ spelling e.1) command_map
unfolding spelling
command_map-spelling =
    (refl, (refl, (refl, (refl, (refl, (refl, (refl, (refl, (refl, (refl, tt))))))))))

spelling-lookup :
    (c : FtpCommand) → c ≢ FtpCommand.unrecognized → lookup (spelling c) command_map ≡ some c
unfolding lookup spelling
spelling-lookup FtpCommand.unrecognized h = absurd (h refl)
spelling-lookup _ h = refl

with_command-command :
    (o : Option FtpCommand) (c : FtpCommand) (tokens : List Bytes)
    → c ≢ FtpCommand.unrecognized
    → ((with_command o tokens).command ≡ c) ↔ (o ≡ some c)
unfolding with_command
with_command-command none c tokens h = (λ e. absurd (h (sym e)), λ e. cc)
with_command-command (some d) c tokens h = (λ e. ap some e, λ e. cc)

with_command-tokens :
    (o : Option FtpCommand) (tokens : List Bytes) → (with_command o tokens).tokens ≡ tokens
unfolding with_command
with_command-tokens none tokens = refl
with_command-tokens (some c) tokens = refl

command_map-names :
    (word : Bytes) (c : FtpCommand)
    → c ≢ FtpCommand.unrecognized
    → (lookup (map to_upper word) command_map ≡ some c) ↔ Spells word (spelling c)
command_map-names word c h =
    let upper = map to_upper word in
    let (there, back) = map-to_upper word (spelling c) (spelling-Capitals c) in
    (
      λ e. there (lookup-spelling upper c command_map command_map-spelling e),
      λ s. ap (λ k. lookup k command_map) (back s) ∙ spelling-lookup c h,
    )

command_map-known : (key : Bytes) → lookup key command_map ≢ some FtpCommand.unrecognized
unfolding lookup spelling
command_map-known key e =
    let empty : key ≡ [] =
      lookup-spelling key FtpCommand.unrecognized command_map command_map-spelling e in
    let there : lookup [] command_map ≡ some FtpCommand.unrecognized =
      ap (λ k. lookup k command_map) (sym empty) ∙ e in
    cc there

with_command-valid :
    (o : Option FtpCommand) (tokens : List Bytes)
    → o ≢ some FtpCommand.unrecognized
    → let p = with_command o tokens in (p.valid ≡ false) ↔ (p.command ≡ FtpCommand.unrecognized)
unfolding with_command
with_command-valid none tokens h = (λ e. refl, λ e. refl)
with_command-valid (some c) tokens h = (λ e. cc, λ e. absurd (h (ap some e)))

pub lookup_command-IsAscii :
    (word : Bytes)
    → IsAscii word
    → lookup_command word ≡ ok (lookup (map to_upper word) command_map)
unfolding lookup_command
lookup_command-IsAscii word a =
    ap (λ r. r >>= λ u. ok (lookup u command_map)) (to_upper_case-IsAscii word a)

-- A line of words without spaces, not empty, the first of ASCII characters, joined by single
-- spaces and ended by CRLF, is parsed: the tokens are the words, the request is invalid exactly
-- if the command is not recognized, and the command is a given one of those of the program
-- exactly if the first word spells its name of RFC 959, each letter a capital or a small one.
pub parse-words :
    (word : Bytes) (arguments : List Bytes) (c : FtpCommand)
    → IsAscii word
    → join (codes " ") (word ∷ arguments) ≢ []
    → All (Lacks b' ') (word ∷ arguments)
    → c ≢ FtpCommand.unrecognized
    → (p : FtpParser) × (parse (join (codes " ") (word ∷ arguments) ++ codes "\r\n") ≡ ok p)
      × (p.tokens ≡ word ∷ arguments)
      × ((p.valid ≡ false) ↔ (p.command ≡ FtpCommand.unrecognized))
      × ((p.command ≡ c) ↔ Spells word (spelling c))
parse-words word arguments c a ne l h =
    let tokens = word ∷ arguments in
    let o = lookup (map to_upper word) command_map in
    let (there, back) = with_command-command o c tokens h in
    let (there', back') = command_map-names word c h in
    (
      with_command o tokens,
      parse-line word arguments ne l
          ∙ ap (λ r. r >>= λ d. ok (with_command d tokens)) (lookup_command-IsAscii word a),
      with_command-tokens o tokens,
      with_command-valid o tokens (command_map-known (map to_upper word)),
      (λ e. there' (there e), λ s. back (back' s)),
    )

-- ===== src/Acipctl/Restart/Words.antt =====
-- The words that a POSIX shell reads in a line, and what becomes of the names that the restart of
-- bin/acipctl.rs escapes.
use acip_sidecar.Prelude.{
  ℕ, ◌≡◌, refl, ◌∙◌, sym, ap, Bool, true, false, Option, none, some, List, [], ◌∷◌, ◌++◌,
  append_assoc, append-nil, arith, ◌==◌, ==_iff, if◌then◌else◌, all, any, Bool-cases, Option-cases,
  inl, inr, unwrap_or, push,
}
use acip_sidecar.Text.{Text, text, replace}
use acip_sidecar.Text.Laws.{replace-one}
use acip_sidecar.Acipctl.Restart.{is_plain, shell_escape, compose_line, is_ascii_alphanumeric}

-- Where the shell is: outside quotes, between words or in one; in single quotes; or after a
-- backslash. The text is what it has of the word.
pub data Mode : Type 0 where
  outside : Option Text → Mode
  quoted : Text → Mode
  escaped : Text → Mode

abbrev pub State : Type 0
State = List Text × Mode

pub is_blank : ℕ → Bool
is_blank c = any (λ d. d == c) (32 ∷ 9 ∷ [])

-- The other characters that are not themselves outside quotes, and the newline.
pub is_special : ℕ → Bool
unfolding text
is_special c = any (λ d. d == c) (10 ∷ text "|&;<>()$`\"*?[]#~=%{}!^")

abbrev begun : Option Text → Text
begun w = unwrap_or w []

end_word : List Text → Option Text → List Text
end_word ws none = ws
end_word ws (some w) = push ws w

-- One character. A character with a meaning that this reader leaves aside stops it.
pub read_char : State → ℕ → Option State
unfolding is_blank is_special end_word
read_char (ws, outside w) c =
    if c == b'\''
    then some (ws, quoted (begun w))
    else if c == b'\\'
    then some (ws, escaped (begun w))
    else if is_blank c
    then some (end_word ws w, outside none)
    else if is_special c
    then none
    else some (ws, outside (some (push (begun w) c)))
read_char (ws, quoted w) c =
    if c == b'\'' then some (ws, outside (some w)) else some (ws, quoted (push w c))
read_char (ws, escaped w) c = if c == 10 then none else some (ws, outside (some (push w c)))

infixl 5 ◌>>=◌
abbrev ◌>>=◌ : {A B : Type 0} → Option A → (A → Option B) → Option B
none >>= f = none
some a >>= f = f a

pub read : State → Text → Option State
unfolding read_char
read st [] = some st
read st (c ∷ s) = do st' ← read_char st c; read st' s

-- The words of a line that ends outside quotes.
finish : State → Option (List Text)
finish (ws, outside w) = some (end_word ws w)
finish (ws, quoted w) = none
finish (ws, escaped w) = none

unfoldable pub words : Text → Option (List Text)
unfolding read finish
words s = do st ← read ([], outside none) s; finish st

read-append : (st : State) (s t : Text) → read st (s ++ t) ≡ (read st s >>= λ st'. read st' t)
unfolding read
read-append st [] t = refl
read-append st (c ∷ s) t = elim (Option-cases (read_char st c)) [
  | inl e ↦ rw e refl
  | inr (st', e) ↦ rw e (read-append st' s t)
]

read_char-plain :
    (ws : List Text) (w : Option Text) (c : ℕ)
    → is_plain c ≡ true
    → read_char (ws, outside w) c ≡ some (ws, outside (some (push (begun w) c)))
unfolding read_char is_plain is_ascii_alphanumeric is_blank is_special text
read_char-plain ws w c h = ground arith

-- What a word that was begun with `w` is after more characters.
grown : Option Text → Text → Option Text
grown w [] = w
grown w (c ∷ s) = grown (some (push (begun w) c)) s

grown_append : (w s : Text) → grown (some w) s ≡ some (w ++ s)
unfolding grown
grown_append w [] = ap some (sym (append-nil w))
grown_append w (c ∷ s) = grown_append (push w c) s ∙ ap some (append_assoc w (c ∷ []) s)

read-plain :
    (ws : List Text) (w : Option Text) (s : Text)
    → all is_plain s ≡ true
    → read (ws, outside w) s ≡ some (ws, outside (grown w s))
unfolding read grown
read-plain ws w [] h = refl
read-plain ws w (c ∷ s) h = elim (Bool-cases (is_plain c)) [
  | inl e ↦ rw (read_char-plain ws w c e) (read-plain ws (some (push (begun w) c)) s (rw e at h))
  | inr e ↦ absurd (cc (rw e at h))
]

read_quote :
    (ws : List Text) (w s : Text)
    → read (ws, quoted w) (text "'\\''" ++ s) ≡ read (ws, quoted (push w b'\'')) s
unfolding read read_char text is_blank is_special
read_quote ws w s = refl

abbrev hide : Text → Text
hide s = replace s (text "'") (text "'\\''")

hide-cons :
    (c : ℕ) (s : Text) → hide (c ∷ s) ≡ (if c == b'\'' then text "'\\''" ++ hide s else c ∷ hide s)
unfolding text
hide-cons c s = replace-one c b'\'' s (text "'\\''")

hide-nil : hide [] ≡ []
unfolding replace text
hide-nil = refl

read_inside :
    (ws : List Text) (w : Text) (c : ℕ) (s : Text)
    → (c == b'\'') ≡ false
    → read (ws, quoted w) (c ∷ s) ≡ read (ws, quoted (push w c)) s
unfolding read read_char
read_inside ws w c s h = rw h refl

read-hide :
    (ws : List Text) (w s rest : Text)
    → read (ws, quoted w) (hide s ++ rest) ≡ read (ws, quoted (w ++ s)) rest
read-hide ws w [] rest = rw (hide-nil, append-nil) refl
read-hide ws w (c ∷ s) rest =
    let tail =
      read-hide ws (push w c) s rest
      ∙ ap (λ x. read (ws, quoted x) rest) (append_assoc w (c ∷ []) s) in
    elim (Bool-cases (c == b'\'')) [
      | inl e ↦
          rw (hide-cons, e, append_assoc)
            (read_quote ws w (hide s ++ rest) ∙ rw (sym ((==_iff c b'\'').0 e)) tail)
      | inr e ↦ rw (hide-cons, e) (read_inside ws w c (hide s ++ rest) e ∙ tail)
    ]

-- The word that an escaped name is read as: an empty name is no word.
abbrev pub as_word : Text → Option Text
as_word [] = none
as_word (c ∷ s) = some (c ∷ s)

grown_new : (s : Text) → grown none s ≡ as_word s
unfolding grown
grown_new [] = refl
grown_new (c ∷ s) = grown_append (c ∷ []) s

read_open :
    (ws : List Text) (s : Text) → read (ws, outside none) (text "'" ++ s) ≡ read (ws, quoted []) s
unfolding read read_char text
read_open ws s = refl

read_close :
    (ws : List Text) (w s : Text)
    → read (ws, quoted w) (text "'" ++ s) ≡ read (ws, outside (some w)) s
unfolding read read_char text
read_close ws w s = refl

not_plain-as_word : (s : Text) → all is_plain s ≡ false → as_word s ≡ some s
not_plain-as_word [] h = absurd (cc)
not_plain-as_word (c ∷ s) h = refl

read-shell_escape :
    (ws : List Text) (s rest : Text)
    → read (ws, outside none) (shell_escape s ++ rest) ≡ read (ws, outside (as_word s)) rest
unfolding shell_escape
read-shell_escape ws s rest = elim (Bool-cases (all is_plain s)) [
  | inl e ↦ rw (e, read-append, read-plain ws none s e, grown_new s) refl
  | inr e ↦
      rw
        (
          e,
          append_assoc (text "'") (hide s ++ text "'") rest,
          append_assoc (hide s) (text "'") rest,
        )
        (rw (read_open, read-hide, read_close, not_plain-as_word s e) refl)
]

-- A name that is given as an argument, which disappears if it is empty.
pub given : Text → List Text
given [] = []
given (c ∷ s) = (c ∷ s) ∷ []

pub compose_words : Text → Text → List Text
compose_words file service =
    text "docker" ∷ text "compose" ∷ text "-f" ∷ (given file ++ (text "restart" ∷ given service))

read_command :
    (s : Text)
    → read ([], outside none) (text "docker compose -f " ++ s)
      ≡ read (text "docker" ∷ text "compose" ∷ text "-f" ∷ [], outside none) s
unfolding read read_char text is_blank is_special end_word
read_command s = refl

read_verb :
    (ws : List Text) (w : Option Text) (s : Text)
    → read (ws, outside w) (text " restart " ++ s)
      ≡ read (push (end_word ws w) (text "restart"), outside none) s
unfolding read read_char text is_blank is_special end_word
read_verb ws w s = refl

assembled :
    (file service : Text)
    → end_word
        (push
          (end_word (text "docker" ∷ text "compose" ∷ text "-f" ∷ []) (as_word file))
          (text "restart"))
        (as_word service)
      ≡ compose_words file service
unfolding end_word compose_words given
assembled [] [] = refl
assembled [] (c ∷ s) = refl
assembled (d ∷ f) [] = refl
assembled (d ∷ f) (c ∷ s) = refl

-- A shell reads the line that is printed for docker compose as the command, with the file and the
-- service as one word each and exactly as they were given, whatever characters they hold, quotes
-- and newlines included; but a name that is empty is no word at all.
pub words-compose_line :
    (file service : Text) → words (compose_line file service) ≡ some (compose_words file service)
unfolding words compose_line compose_words finish
words-compose_line file service =
    rw
      (
        read_command,
        read-shell_escape,
        read_verb,
        ← (append-nil (shell_escape service)),
        read-shell_escape,
      )
      (ap some (assembled file service))

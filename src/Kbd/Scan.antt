-- ===== src/Kbd/Scan.antt =====
-- c/scanToASCII.c: scan codes to characters.
use bkernel.Base.{
  ℕ, ◌+◌, ◌%◌, List, [], ◌∷◌, true, false, ◌&&◌, ◌==◌, if◌then◌else◌, ltb, leb, get_or,
}
use bkernel.Kernel.{ScanState}

abbrev pub no_char : ℕ
no_char = 256

abbrev pub key_up : ℕ
key_up = 0x80

abbrev pub lshift : ℕ
lshift = 0x2a

abbrev pub rshift : ℕ
rshift = 0x36

abbrev pub lmeta : ℕ
lmeta = 0x38

abbrev pub lctl : ℕ
lctl = 0x1d

abbrev pub capsl : ℕ
capsl = 0x3a

abbrev pub extesc : ℕ
extesc = 0xe0

unfoldable pub kbcode : List ℕ
kbcode =
    0 ∷ 27 ∷ b'1' ∷ b'2' ∷ b'3' ∷ b'4' ∷ b'5' ∷ b'6' ∷ b'7' ∷ b'8' ∷ b'9' ∷ b'0' ∷ b'-' ∷ b'=' ∷ 8
    ∷ 9 ∷ b'q' ∷ b'w' ∷ b'e' ∷ b'r' ∷ b't' ∷ b'y' ∷ b'u' ∷ b'i' ∷ b'o' ∷ b'p' ∷ b'[' ∷ b']' ∷ 10 ∷ 0
    ∷ b'a' ∷ b's' ∷ b'd' ∷ b'f' ∷ b'g' ∷ b'h' ∷ b'j' ∷ b'k' ∷ b'l' ∷ b';' ∷ 39 ∷ b'`' ∷ 0 ∷ 92
    ∷ b'z' ∷ b'x' ∷ b'c' ∷ b'v' ∷ b'b' ∷ b'n' ∷ b'm' ∷ b',' ∷ b'.' ∷ b'/' ∷ 0 ∷ 0 ∷ 0 ∷ b' ' ∷ []

unfoldable pub kbshift : List ℕ
kbshift =
    0 ∷ 0 ∷ b'!' ∷ b'@' ∷ b'#' ∷ b'$' ∷ b'%' ∷ b'^' ∷ b'&' ∷ b'*' ∷ b'(' ∷ b')' ∷ b'_' ∷ b'+' ∷ 8
    ∷ 9 ∷ b'Q' ∷ b'W' ∷ b'E' ∷ b'R' ∷ b'T' ∷ b'Y' ∷ b'U' ∷ b'I' ∷ b'O' ∷ b'P' ∷ b'{' ∷ b'}' ∷ 10 ∷ 0
    ∷ b'A' ∷ b'S' ∷ b'D' ∷ b'F' ∷ b'G' ∷ b'H' ∷ b'J' ∷ b'K' ∷ b'L' ∷ b':' ∷ 34 ∷ b'~' ∷ 0 ∷ b'|'
    ∷ b'Z' ∷ b'X' ∷ b'C' ∷ b'V' ∷ b'B' ∷ b'N' ∷ b'M' ∷ b'<' ∷ b'>' ∷ b'?' ∷ 0 ∷ 0 ∷ 0 ∷ b' ' ∷ []

unfoldable pub kbctl : List ℕ
kbctl =
    0 ∷ 0 ∷ 0 ∷ 0 ∷ 0 ∷ 0 ∷ 0 ∷ 0 ∷ 0 ∷ 0 ∷ 0 ∷ 0 ∷ 31 ∷ 0 ∷ 8 ∷ 9 ∷ 17 ∷ 23 ∷ 5 ∷ 18 ∷ 20 ∷ 25 ∷ 21
    ∷ 9 ∷ 15 ∷ 16 ∷ 27 ∷ 29 ∷ 10 ∷ 0 ∷ 1 ∷ 19 ∷ 4 ∷ 6 ∷ 7 ∷ 8 ∷ 10 ∷ 11 ∷ 12 ∷ 0 ∷ 0 ∷ 0 ∷ 0 ∷ 28
    ∷ 26 ∷ 24 ∷ 3 ∷ 22 ∷ 2 ∷ 14 ∷ 13 ∷ []

-- The sizes of the tables.
abbrev pub kbcode_size : ℕ
kbcode_size = 58

abbrev pub kbshift_size : ℕ
kbshift_size = 58

abbrev pub kbctl_size : ℕ
kbctl_size = 51

-- `extchar` returns no value: `indeterminate` is what its caller reads.
extchar : ℕ → ScanState → ℕ × ScanState
extchar indeterminate s = (indeterminate, record s { extended = false })

unfoldable pub release_key : ℕ → ScanState → ScanState
release_key key s =
    if key == lshift
    then record s { inshift = false }
    else if key == rshift
    then record s { inshift = false }
    else if key == capsl
    then record s { capslock = false }
    else if key == lctl
    then record s { inctl = false }
    else if key == lmeta
    then record s { inmeta = false }
    else s

-- The character for a code that is no special key.
unfoldable pub translate : ℕ → ScanState → ℕ
unfolding kbcode kbshift kbctl
translate code s =
    let plain =
      if ltb code kbcode_size
      then (if s.capslock then get_or kbshift code 0 else get_or kbcode code 0)
      else no_char in
    let shifted =
      if s.inshift
      then (if s.capslock then get_or kbcode code 0 else get_or kbshift code 0)
      else plain in
    let ch = if s.inctl then get_or kbctl code 0 else shifted in
    if s.inshift && leb kbshift_size code
    then no_char
    else if s.inctl && leb kbctl_size code
    then no_char
    else if s.inmeta
    then ch + 0x80
    else ch

unfoldable pub kbtoa : ℕ → ℕ → ScanState → ℕ × ScanState
unfolding extchar
kbtoa indeterminate code s =
    if s.extended
    then extchar indeterminate s
    else if leb key_up code
    then (no_char, release_key (code % 0x80) s)
    else if code == lshift
    then (no_char, record s { inshift = true })
    else if code == rshift
    then (no_char, record s { inshift = true })
    else if code == capsl
    then (no_char, record s { capslock = true })
    else if code == lctl
    then (no_char, record s { inctl = true })
    else if code == lmeta
    then (no_char, record s { inmeta = true })
    else if code == extesc
    then (no_char, record s { extended = true })
    else (translate code s, s)

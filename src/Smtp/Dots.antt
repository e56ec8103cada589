-- ===== src/Smtp/Dots.antt =====
-- The dots that a receiver of SMTP removes at the heads of lines (RFC 5321, 4.5.2), which no function of
-- src/lib/smtp_socket_util.c doubles.
use sntools.Base.{
  ◌≡◌, refl, ap, Bool, true, false, ◌&&◌, not, [], ◌∷◌, ◌++◌, arith, if◌then◌else◌, ◌==◌, Bytes,
}
use sntools.Smtp.{CR, LF}

-- The text does not begin with a dot.
abbrev pub no_dot : Bytes → Bool
no_dot [] = true
no_dot (c ∷ _) = not (c == b'.')

-- No dot stands behind an LF.
unfoldable pub dot_free_starts : Bytes → Bool
dot_free_starts [] = true
dot_free_starts (c ∷ rest) = (if c == LF then no_dot rest else true) && dot_free_starts rest

-- No line of the text begins with a dot.
abbrev pub no_leading_dots : Bytes → Bool
no_leading_dots text = no_dot text && dot_free_starts text

-- The text without the dots behind a CR LF.
unfoldable pub remove_inner_dots : Bytes → Bytes
remove_inner_dots [] = []
remove_inner_dots (c ∷ []) = c ∷ []
remove_inner_dots (c ∷ d ∷ []) = c ∷ d ∷ []
remove_inner_dots (c ∷ d ∷ e ∷ rest) =
    let without = remove_inner_dots rest in
    let next = remove_inner_dots (d ∷ e ∷ rest) in
    if c == CR && d == LF && e == b'.' then CR ∷ LF ∷ without else c ∷ next

unfoldable pub remove_dots : Bytes → Bytes
unfolding remove_inner_dots
remove_dots [] = []
remove_dots (c ∷ rest) = if c == b'.' then remove_inner_dots rest else remove_inner_dots (c ∷ rest)

dot_free_starts-append :
    (a b : Bytes)
    → dot_free_starts a ≡ true
    → no_leading_dots b ≡ true
    → dot_free_starts (a ++ b) ≡ true
unfolding dot_free_starts
dot_free_starts-append [] b h k = ground (arith, k)
dot_free_starts-append (c ∷ []) b h k = ground (arith, h, k)
dot_free_starts-append (c ∷ d ∷ a) b h k =
    let more = dot_free_starts-append (d ∷ a) b (ground (arith, h)) k in ground (arith, h, more)

pub no_leading_dots-append :
    (a b : Bytes)
    → no_leading_dots a ≡ true
    → no_leading_dots b ≡ true
    → no_leading_dots (a ++ b) ≡ true
no_leading_dots-append [] b h k = k
no_leading_dots-append (c ∷ a) b h k =
    let more = dot_free_starts-append (c ∷ a) b (ground (arith, h)) k in ground (arith, h, more)

remove_inner_dots-none :
    (text : Bytes) → dot_free_starts text ≡ true → remove_inner_dots text ≡ text
unfolding remove_inner_dots dot_free_starts
remove_inner_dots-none [] h = refl
remove_inner_dots-none (c ∷ []) h = refl
remove_inner_dots-none (c ∷ d ∷ []) h = refl
remove_inner_dots-none (c ∷ d ∷ e ∷ rest) h =
    let no_head : (c == CR && d == LF && e == b'.') ≡ false = ground (arith, h) in
    rw no_head (ap (◌∷◌ c) (remove_inner_dots-none (d ∷ e ∷ rest) (ground (arith, h))))

-- Nothing is removed of a text in which no line begins with a dot.
pub remove_dots-none : (text : Bytes) → no_leading_dots text ≡ true → remove_dots text ≡ text
unfolding remove_dots
remove_dots-none [] h = refl
remove_dots-none (c ∷ rest) h =
    let no_head : (c == b'.') ≡ false = ground (arith, h) in
    rw no_head (remove_inner_dots-none (c ∷ rest) (ground (arith, h)))

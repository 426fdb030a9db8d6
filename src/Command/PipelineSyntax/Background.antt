-- ===== src/Command/PipelineSyntax/Background.antt =====
-- peel_pipeline_background and is_quoted_position of bywaf/command/pipeline_syntax.py.
use bywaf.Prelude.{
  ℕ, zero, suc, ◌+◌, ◌-◌, ◌<◌, true, false, if◌then◌else◌, is_some, [], ◌∷◌, ◌++◌, ◌≡◌, refl, sym,
  ◌∙◌, ap, arith, Text, take, length, rstrip, all, append_assoc, length-append, take-append,
  rstrip-append_blank, rstrip-snoc_blank, last?-snoc, get_elem?-append, is_space,
}
use bywaf.Command.Quoting.{Quoting, outside, next_quoting, quoting_after}
use bywaf.Command.PipelineSyntax.{
  is_quoted_from, is_quoted_position, ends_with_ampersand, is_space_at, peel_pipeline_background,
}

is_quoted_from_lem :
    (rest : Text) (index : ℕ) (q : Quoting) (k position : ℕ)
    → position ≡ index + k
    → k < length rest
    → is_quoted_from rest index q position ≡ is_some (quoting_after q (take k rest)).quote
unfolding is_quoted_from quoting_after
is_quoted_from_lem [] index q k position e h = elim h [ ]
is_quoted_from_lem (c ∷ rest) index q zero position e h = ground arith
is_quoted_from_lem (c ∷ rest) index q (suc k) position e h =
    ground (arith, is_quoted_from_lem rest (index + 1) (next_quoting q c) k position)

-- Inside the text, a position is quoted exactly when the characters before it leave a quote open.
pub is_quoted_position_lem :
    (text : Text) (position : ℕ)
    → position < length text
    → is_quoted_position text position ≡ is_some (quoting_after outside (take position text)).quote
unfolding is_quoted_position
is_quoted_position_lem text position h =
    is_quoted_from_lem text 0 outside position position (omega arith) h

ends_with_ampersand-snoc : (s : Text) → ends_with_ampersand (s ++ b'&' ∷ []) ≡ true
unfolding ends_with_ampersand
ends_with_ampersand-snoc s = ground (arith, last?-snoc s b'&')

is_space_at-append :
    (s : Text) (c : ℕ) (t : Text) → is_space_at (s ++ c ∷ t) (length s) ≡ is_space c
unfolding is_space_at
is_space_at-append s c t = ground (arith, get_elem?-append s c t)

-- A line that ends in white space and a `&`, which more white space may follow, loses the `&` and
-- the white space before it, and is marked as background, if no quote is open at the `&`; if one
-- is, the line is unchanged and not marked.
pub peel_pipeline_background_lem :
    (body : Text) (s : ℕ) (ws : Text)
    → is_space s ≡ true
    → all is_space ws ≡ true
    → peel_pipeline_background (body ++ s ∷ b'&' ∷ ws) ≡ (
        if is_some (quoting_after outside (body ++ s ∷ [])).quote
        then (body ++ s ∷ b'&' ∷ ws, false)
        else (rstrip body, true))
unfolding peel_pipeline_background
peel_pipeline_background_lem body s ws hs hw =
    let head = body ++ s ∷ [] in
    let stripped = head ++ b'&' ∷ [] in
    let e1 : rstrip (body ++ s ∷ b'&' ∷ ws) ≡ stripped =
      ap rstrip (sym (append_assoc body (s ∷ []) (b'&' ∷ ws)))
      ∙ rstrip-append_blank head b'&' ws (unfold is_space in refl) hw in
    let e2 : length stripped - 1 ≡ length head = rw length-append (omega arith) in
    let e3 : length head ≡ suc (length body) = rw length-append (omega arith) in
    let e4 : length head - 1 ≡ length body = omega (arith, e3) in
    let e5 : is_space_at stripped (length head - 1) ≡ true =
      rw (e4, append_assoc, is_space_at-append) hs in
    let e6 : is_quoted_position stripped (length head)
        ≡ is_some (quoting_after outside head).quote =
      is_quoted_position_lem stripped (length head) (rw (length-append {A = ℕ} head) (omega arith))
      ∙ rw take-append in
    rw (e1, e2, ends_with_ampersand-snoc, e5, e6, take-append, rstrip-snoc_blank body s hs)
      (rw e3 (ground arith))

-- ===== src/SpamHeuristics/Written.antt =====
-- Authentication-Results values as a grammar, and what is left of one.
use mailove.Common.{
  ℕ, suc, false, ◌≡◌, refl, ap, ◌∙◌, [], ◌∷◌, ◌++◌, append_assoc, Bytes, ◌==◌, arith,
}
use mailove.SpamHeuristics.{
  outside, quoted, comment, close_comment, auth_step, auth_output, strip_from,
  strip_auth_comments_and_quotes,
}

-- The inside of a quoted string, up to its closing quote.
pub data Quoted : Type 0 where
  quote_end : Quoted
  quote_char : (c : ℕ) → (c == 92) ≡ false → (c == b'"') ≡ false → Quoted → Quoted
  quote_escaped : ℕ → Quoted → Quoted

-- The inside of a comment, up to its closing parenthesis; a quote has no meaning here.
pub data Comment : Type 0 where
  comment_end : Comment
  comment_char :
      (c : ℕ) → (c == 92) ≡ false → (c == b'(') ≡ false → (c == b')') ≡ false → Comment → Comment
  comment_escaped : ℕ → Comment → Comment
  comment_nested : Comment → Comment → Comment

-- A value whose quoted strings and comments are closed.
pub data AuthText : Type 0 where
  text_end : AuthText
  text_char : (c : ℕ) → (c == b'"') ≡ false → (c == b'(') ≡ false → AuthText → AuthText
  text_quoted : Quoted → AuthText → AuthText
  text_comment : Comment → AuthText → AuthText

-- How it is written.
unfoldable pub print_quoted : Quoted → Bytes
print_quoted quote_end = b'"' ∷ []
print_quoted (quote_char c h k q) = c ∷ print_quoted q
print_quoted (quote_escaped c q) = 92 ∷ c ∷ print_quoted q

unfoldable pub print_comment : Comment → Bytes
print_comment comment_end = b')' ∷ []
print_comment (comment_char c h k l t) = c ∷ print_comment t
print_comment (comment_escaped c t) = 92 ∷ c ∷ print_comment t
print_comment (comment_nested s t) = b'(' ∷ print_comment s ++ print_comment t

unfoldable pub print_auth : AuthText → Bytes
unfolding print_quoted print_comment
print_auth text_end = []
print_auth (text_char c h k t) = c ∷ print_auth t
print_auth (text_quoted q t) = b'"' ∷ print_quoted q ++ print_auth t
print_auth (text_comment s t) = b'(' ∷ print_comment s ++ print_auth t

-- What a reader outside of quotes and comments sees of it, a comment as a space.
unfoldable pub outside_text : AuthText → Bytes
outside_text text_end = []
outside_text (text_char c h k t) = c ∷ outside_text t
outside_text (text_quoted q t) = outside_text t
outside_text (text_comment s t) = b' ' ∷ outside_text t

strip_from-quoted :
    (q : Quoted) (rest : Bytes)
    → strip_from quoted (print_quoted q ++ rest) ≡ strip_from outside rest
unfolding strip_from auth_step auth_output print_quoted
strip_from-quoted quote_end rest = refl
strip_from-quoted (quote_char c h k q) rest = ground (arith, strip_from-quoted q rest)
strip_from-quoted (quote_escaped c q) rest = strip_from-quoted q rest

strip_from-comment :
    (t : Comment) (n : ℕ) (rest : Bytes)
    → strip_from (comment n) (print_comment t ++ rest) ≡ strip_from (close_comment n) rest
unfolding strip_from auth_step auth_output print_comment
strip_from-comment comment_end n rest = refl
strip_from-comment (comment_char c h k l t) n rest = ground (arith, strip_from-comment t n rest)
strip_from-comment (comment_escaped c t) n rest = strip_from-comment t n rest
strip_from-comment (comment_nested s t) n rest =
    ap (strip_from (comment (suc n))) (append_assoc (print_comment s) (print_comment t) rest)
    ∙ strip_from-comment s (suc n) (print_comment t ++ rest)
    ∙ strip_from-comment t n rest

-- Of a value whose quotes and comments are closed, exactly what stands outside of them is left, with
-- a space for each comment. Escaped characters, nested comments and quotes in comments count.
pub strip_auth_comments_and_quotes-print :
    (t : AuthText) → strip_auth_comments_and_quotes (print_auth t) ≡ outside_text t
unfolding strip_auth_comments_and_quotes strip_from auth_step auth_output close_comment print_auth
    outside_text
strip_auth_comments_and_quotes-print text_end = refl
strip_auth_comments_and_quotes-print (text_char c h k t) =
    ground (arith, strip_auth_comments_and_quotes-print t)
strip_auth_comments_and_quotes-print (text_quoted q t) =
    strip_from-quoted q (print_auth t) ∙ strip_auth_comments_and_quotes-print t
strip_auth_comments_and_quotes-print (text_comment s t) =
    ap (λ (b : Bytes). b' ' ∷ b)
      (strip_from-comment s 0 (print_auth t) ∙ strip_auth_comments_and_quotes-print t)

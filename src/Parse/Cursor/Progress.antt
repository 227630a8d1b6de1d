-- ===== src/Parse/Cursor/Progress.antt =====
-- Blanks, comments and line ends are read to the end.
use teptris.Base.{[], ◌∷◌, Bytes, ◌==◌, ◌&&◌}
use teptris.Common.Chartype.{is_ws}
use teptris.Parse.Cursor.{
  adv, next_is, skip_ws, skip_comment, comment_body, finish_line, maybe_comment, line_end,
}
use teptris.Parse.Cursor.Gaps.{Body-IsRest, comment_body-SkipsComment, SkipsComment}
use teptris.Parse.Result.{
  Result, ok, fail, stuck, overrun, ◌>>◌, IsRest-refl, IsRest-cons, IsRest-drop, Read, reads,
  gives_up, Any, Read-if, Read-trans, Read-bind,
}

pub skip_ws-Read : (s : Bytes) → Read s Any (skip_ws s)
unfolding skip_ws
skip_ws-Read [] = reads (IsRest-refl []) tt
skip_ws-Read (c ∷ s) =
    Read-if (is_ws c) (Read-trans (IsRest-cons c (IsRest-refl s)) (skip_ws-Read s))
      (reads (IsRest-refl (c ∷ s)) tt)

comment_Read : (s : Bytes) (r : Result (Unit {0})) → SkipsComment s r → Read s Any r
comment_Read s (ok _ rest) (h, e) = reads (Body-IsRest h) tt
comment_Read s (fail st why rest) (h, e) = gives_up (Body-IsRest h)
comment_Read s stuck h = absurd h
comment_Read s overrun h = absurd h

pub comment_body-Read : (s : Bytes) → Read s Any (comment_body s)
comment_body-Read s = comment_Read s (comment_body s) (comment_body-SkipsComment s)

pub skip_comment-Read : (s : Bytes) → Read s Any (skip_comment s)
unfolding skip_comment
skip_comment-Read s = Read-trans (IsRest-drop 1 s) (comment_body-Read (adv 1 s))

maybe_comment-Read : (s : Bytes) → Read s Any (maybe_comment s)
unfolding maybe_comment
maybe_comment-Read [] = reads (IsRest-refl []) tt
maybe_comment-Read (c ∷ s) =
    Read-if (c == b'#') (skip_comment-Read (c ∷ s)) (reads (IsRest-refl (c ∷ s)) tt)

line_end-Read : (s : Bytes) → Read s Any (line_end s)
unfolding line_end
line_end-Read [] = reads (IsRest-refl []) tt
line_end-Read (c ∷ s) = Read-if (c == b'\n') (reads (IsRest-drop 1 (c ∷ s)) tt) (
    Read-if (c == b'\r' && next_is b'\n' s) (reads (IsRest-drop 2 (c ∷ s)) tt)
      (gives_up (IsRest-refl (c ∷ s))))

pub finish_line-Read : (s : Bytes) → Read s Any (finish_line s)
unfolding finish_line
finish_line-Read s =
    Read-bind (λ (_ : Unit {0}). maybe_comment >> line_end) (skip_ws-Read s)
      (λ _ t inside q. Read-trans inside (
        Read-bind (λ (_ : Unit {0}). line_end) (maybe_comment-Read t)
          (λ _ u within q'. Read-trans within (line_end-Read u))))

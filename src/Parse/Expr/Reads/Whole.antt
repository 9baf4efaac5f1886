-- ===== src/Parse/Expr/Reads/Whole.antt =====
-- nextExpr: with enough fuel it ends, and a tree without error nodes is what has been consumed.
use novus.Base.{ℕ, zero, suc, ◌+◌, ◌*◌, ◌≤◌, refl, sym, arith, [], length-append, leb}
use novus.Parse.Input.{Input}
use novus.Parse.Runs.{Runs, done, left, Runs-if, Runs-imp, Runs-bind, consume_token-Runs}
use novus.Parse.Expr.Print.{node_ok}
use novus.Parse.Expr.Reads.{Reads, NextReads}
use novus.Parse.Expr.Reads.Primary.{next_expr_lhs-Runs}
use novus.Parse.Expr.Reads.Rest.{expr_loop-Runs}
use novus.Parse.Expr.{max_recursion_depth, next_expr}

pub next_expr-Runs :
    (f depth min max : ℕ) (s : Input)
    → 8 * left s + 8 ≤ f
    → Runs s (Reads s) (next_expr f depth min max s)
unfolding next_expr node_ok
next_expr-Runs zero depth min max s l = absurd (omega arith)
next_expr-Runs (suc f) depth min max s l =
    Runs-if (leb max_recursion_depth (suc depth)) _ _
      (λ y. Runs-bind (consume_token-Runs s) λ t u c q k.
        done [] refl (λ m. omega (arith, k.counts m, length-append c []), λ g. absurd cc))
      (λ y.
        let next = next_expr f (suc depth) in
        let reads : NextReads next (left s) =
          λ min max t m. next_expr-Runs f (suc depth) min max t (omega (arith, l, m)) in
        Runs-bind (next_expr_lhs-Runs next (left s) reads f s (omega (arith, l)) (omega arith))
          λ lhs t c q (progress, h).
            Runs-imp
              (expr_loop-Runs next (left s) reads f min max lhs t (omega (arith, l, q))
                (omega (arith, q)))
              λ e d i. (
                λ m. omega (arith, progress m, length-append c d),
                λ g. let (ok, z) = i g in rw (h ok) (sym z),
              ))

-- ===== src/Options/Dispatch.antt =====
-- The `switch` of `mptcp_parse_options` on the subtype, one case at a time.
use redundant_mptcp_r_mptcp.Prelude.{
  ℕ, ◌<◌, ◌≡◌, refl, true, List, ◌++◌, ◌==◌, arith, if◌then◌else◌,
}
use redundant_mptcp_r_mptcp.Options.Header.{Parsed, len_fail}
use redundant_mptcp_r_mptcp.Options.Parse.{
  ParseEnv, sub_of, mptcp_parse_options, parse_capable, parse_join, parse_dss, parse_add_addr,
  parse_remove_addr, parse_prio, parse_fclose,
}
use redundant_mptcp_r_mptcp.Options.Write.{header}

pub sub_of-header :
    (len sub low : ℕ) (rest : List ℕ) → low < 16 → sub_of (header len sub low ++ rest) ≡ sub
sub_of-header len sub low rest h = omega arith

-- The case for a subtype.
abbrev CaseIs : ℕ → (ParseEnv → ℕ → List ℕ → ℕ → Parsed → Parsed) → Type 0
CaseIs sub f =
    (env : ParseEnv) (off : ℕ) (bs : List ℕ) (opsize : ℕ) (p : Parsed)
    → sub_of bs ≡ sub
    → mptcp_parse_options env off bs opsize p ≡ f env off bs opsize p

pub case_capable : CaseIs 0 (λ env off bs n p. record p { mopt = parse_capable env bs n p.mopt })
unfolding mptcp_parse_options
case_capable env off bs opsize p h = rw h refl

pub case_join : CaseIs 1 (λ env off bs n p. record p { mopt = parse_join bs n p.mopt })
unfolding mptcp_parse_options
case_join env off bs opsize p h = rw h refl

pub case_dss : CaseIs 2 (λ env off bs n p. parse_dss off bs n p)
unfolding mptcp_parse_options
case_dss env off bs opsize p h = rw h refl

pub case_add_addr :
    CaseIs 3 (λ env off bs n p. record p { mopt = parse_add_addr env off bs n p.mopt })
unfolding mptcp_parse_options
case_add_addr env off bs opsize p h = rw h refl

pub case_remove_addr :
    CaseIs 4 (λ env off bs n p. record p { mopt = parse_remove_addr off n p.mopt })
unfolding mptcp_parse_options
case_remove_addr env off bs opsize p h = rw h refl

pub case_prio : CaseIs 5 (λ env off bs n p. record p { mopt = parse_prio bs n p.mopt })
unfolding mptcp_parse_options
case_prio env off bs opsize p h = rw h refl

pub case_fail : CaseIs 6 (λ env off bs n p.
    if n == len_fail then record p { mopt = record p.mopt { mp_fail = true } } else p)
unfolding mptcp_parse_options
case_fail env off bs opsize p h = rw h refl

pub case_fclose : CaseIs 7 (λ env off bs n p. record p { mopt = parse_fclose bs n p.mopt })
unfolding mptcp_parse_options
case_fclose env off bs opsize p h = rw h refl

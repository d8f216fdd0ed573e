-- ===== src/Ledger/Links/Checks.antt =====
-- The links of check reviews, executions and requests.
use veyra_demo.Ledger.Entry.{Entry}
use veyra_demo.Ledger.Links.{IsEntryId, LinksKnown, link_rules, select-In, traverse-All}
use veyra_demo.Ledger.Platform.{Platform}
use veyra_demo.Ledger.Request.{Request}
use veyra_demo.Ledger.Validate.Checks.{
  check_execution, check_review, is_review_of, request_sent, sent_review, standing_review,
}
use veyra_demo.Prelude.{All, In, In-map, List, String, arith, last?, last?-In, subst, ◌≡◌}
use veyra_demo.Python.Result.{>>=-eq-ok, Ensures, ledger_error, ok, or_raise, select, traverse}
use veyra_demo.Python.Text.{◌&◌}
use veyra_demo.Python.Value.{Dict, Value}

pub check_review-links :
    (p : Platform) (r : Request) (payload : Dict)
    → Ensures (LinksKnown r) (check_review p r payload)
unfolding check_review
check_review-links p r payload = search (link_rules) depth 24

pub standing_review-In :
    (run_id : Value) (check_id : String) (es : List Entry) (m : String) (e : Entry)
    → standing_review run_id check_id es m ≡ ok e
    → In e es
unfolding standing_review
standing_review-In run_id check_id es m e h =
    let (reviews, selected, h') = >>=-eq-ok (select (is_review_of run_id check_id) es) _ h in
    let (review, last, h'') = >>=-eq-ok (or_raise (last? reviews) (ledger_error m)) _ h' in
    select-In (is_review_of run_id check_id) es reviews selected e
      (last?-In reviews e (ground arith))

standing_review-Known :
    (r : Request) (run_id : Value) (check_id : String) (m : String) (e : Entry)
    → standing_review run_id check_id r.entries m ≡ ok e
    → IsEntryId r.entries e.id
standing_review-Known r run_id check_id m e h =
    In-map (λ e. e.id) r.entries (standing_review-In run_id check_id r.entries m e h)

pub check_execution-links :
    (p : Platform) (r : Request) (payload : Dict)
    → Ensures (LinksKnown r) (check_execution p r payload)
unfolding check_execution
check_execution-links p r payload = search (link_rules, standing_review-Known) depth 30

sent_review-Known :
    (r : Request) (run_id : Value) (check_id : String) (i : String)
    → sent_review r run_id check_id ≡ ok i
    → IsEntryId r.entries i
unfolding sent_review
sent_review-Known r run_id check_id i h =
    let m : String = "Approve " & check_id & " before recording that the request was sent" in
    let (review, found, h') = >>=-eq-ok (standing_review run_id check_id r.entries m) _ h in
    subst (IsEntryId r.entries) (ground arith)
      (standing_review-Known r run_id check_id m review found)

reviews-Known :
    (r : Request) (run_id : Value) (check_ids is : List String)
    → traverse (sent_review r run_id) check_ids ≡ ok is
    → All (IsEntryId r.entries) is
reviews-Known r run_id =
    traverse-All (IsEntryId r.entries) (sent_review r run_id) (sent_review-Known r run_id)

pub request_sent-links :
    (p : Platform) (r : Request) (payload : Dict)
    → Ensures (LinksKnown r) (request_sent p r payload)
unfolding request_sent
request_sent-links p r payload = search (link_rules, reviews-Known) depth 24

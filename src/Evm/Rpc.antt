-- ===== src/Evm/Rpc.antt =====
-- `rpc_call`, `fetch_chain_id` and `fetch_transaction_receipt` of src/tc_ledger/evm_verifier.py. The HTTP
-- request and the decoding of its answer are a parameter: from the address and the request, a JSON
-- value or an exception.
use tc_ledger.Prelude.{Bool, not, ◌||◌, drop, ◌&&◌}
use tc_ledger.Py.Result.{Result, ok, err, evm_verification_error, raise_if, ◌>>=◌, ◌>>◌}
use tc_ledger.Py.Int.{ℤ, pos}
use tc_ledger.Py.Str.{Str, codes}
use tc_ledger.Py.Text.{starts_with, is_hex_digits}
use tc_ledger.Py.Text.Runtime.{Runtime}
use tc_ledger.Py.Json.{
  Json, Fields, Items, bool, int, str, list, dict, nil, cons, field, end, get, truthy, bool_int,
}
use tc_ledger.Settlement.Normalize.{normalize_hex, of_length}
use tc_ledger.Settlement.Parse.{or_raise}
use tc_ledger.Cross.Terms.{same_lower_some}

-- every exception becomes an EvmVerificationError
abbrev pub or_rpc_error : Result Json → Result Json
or_rpc_error (ok j) = ok j
or_rpc_error (err e) = err evm_verification_error

abbrev pub request : Str → Items → Json
request method params = dict (
    field (codes "jsonrpc") (str (codes "2.0")) (
      field (codes "id") (int (pos 1))
        (field (codes "method") (str method) (field (codes "params") (list params) end))))

-- The result of an answer.
unfoldable pub rpc_result : Json → Result Json
rpc_result (dict answer) = do
  raise_if (truthy (get answer (codes "error"))) evm_verification_error
  ok (get answer (codes "result"))
rpc_result _ = err evm_verification_error

-- re.fullmatch(r"0x[0-9a-fA-F]+", s)
abbrev pub is_0x_digits : Str → Bool
is_0x_digits s = starts_with s (codes "0x") && is_hex_digits (drop 2 s)

unfoldable pub chain_id_of : Runtime → Json → Result ℤ
chain_id_of rt (str s) = do
  raise_if (not (is_0x_digits s)) evm_verification_error
  rt.parse_int 16 s
chain_id_of rt (int n) = ok n
chain_id_of rt (bool b) = ok (bool_int b)
chain_id_of rt _ = err evm_verification_error

unfoldable pub receipt_of : Runtime → Str → Json → Result Fields
receipt_of rt norm_tx (dict receipt) = do
  raise_if (not (truthy (dict receipt))) evm_verification_error
  raise_if
      (not (same_lower_some rt norm_tx (normalize_hex (get receipt (codes "transactionHash")))))
      evm_verification_error
  ok receipt
receipt_of rt norm_tx _ = err evm_verification_error

module _ (post : Str → Json → Result Json) where
  unfoldable pub rpc_call : Str → Str → Items → Result Json
  rpc_call rpc_url method params = do
    raise_if (not (starts_with rpc_url (codes "http://") || starts_with rpc_url (codes "https://")))
        evm_verification_error
    answer ← or_rpc_error (post rpc_url (request method params))
    rpc_result answer

  unfoldable pub fetch_chain_id : Runtime → Str → Result ℤ
  fetch_chain_id rt rpc_url = do
    answer ← rpc_call rpc_url (codes "eth_chainId") nil
    chain_id_of rt answer

  unfoldable pub fetch_transaction_receipt : Runtime → Str → Str → Result Fields
  fetch_transaction_receipt rt rpc_url tx_hash = do
    norm_tx ← or_raise evm_verification_error (of_length 66 (normalize_hex (str tx_hash)))
    answer ← rpc_call rpc_url (codes "eth_getTransactionReceipt") (cons (str norm_tx) nil)
    receipt_of rt norm_tx answer

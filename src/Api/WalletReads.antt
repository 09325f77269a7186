-- ===== src/Api/WalletReads.antt =====
-- src/wallet/routes.ts, and the checks of src/app.ts: what is read without a key.
use qrib.Db.{
  Fault, Act, Change, catch, option_case, type_error, pure, Runs, Runs-option_case, ◌>>=◌, or_raise,
  Runs-pure, Runs-catch, Runs-bind, Runs-or_raise,
}
use qrib.Api.Answers.{
  Answer, ok_json, refuse, json, message_of, unknown_network, bad_address, bad_usdc_amount,
  receive_reply, health_reply, ready_reply, not_ready_reply, balance_reply,
}
use qrib.Wallet.Usdc.{Ethereum, get_usdc_balance, checked_address, receive_info, ReceiveInfo}
use qrib.Wallet.Networks.{parse_network, network_of, Network}
use qrib.Common.{none, some, Option, Text, Bool, if◌then◌else◌}

-- The library's errors are told apart by the start of their message.
module _ (eth : Ethereum) (is_input_error : Fault → Bool) where
  abbrev read_failure : Fault → Answer
  read_failure e = refuse (if is_input_error e then 400 else 502) (message_of e)

  -- The read, with the network's entry; a name that every object inherits has none.
  abbrev read_balance : Text → Text → Act Answer
  read_balance name holder =
      catch (do net ← or_raise (network_of name) type_error; get_usdc_balance eth net holder)
        (λ b. pure (ok_json (balance_reply name holder b))) (λ e. pure (read_failure e))

  -- `GET /wallet/balance`
  unfoldable pub balance_handler : Option Text → Option Text → Act Answer
  balance_handler network address =
      option_case (parse_network network) (pure (refuse 400 unknown_network)) λ name.
        option_case (checked_address eth address) (pure (refuse 400 bad_address))
          λ holder. read_balance name holder

abbrev receive_answer : Text → Option ReceiveInfo → Answer
receive_answer name none = refuse 400 bad_usdc_amount
receive_answer name (some info) = ok_json (receive_reply name info)

abbrev receive_on : Ethereum → Text → Text → Option Text → Option Network → Answer
receive_on eth name holder amount none = refuse 400 (message_of type_error)
receive_on eth name holder amount (some net) =
    receive_answer name (receive_info eth net holder amount)

-- `GET /wallet/receive`
unfoldable pub receive_handler : Ethereum → Option Text → Option Text → Option Text → Act Answer
receive_handler eth network address amount =
    option_case (parse_network network) (pure (refuse 400 unknown_network)) λ name.
      option_case (checked_address eth address) (pure (refuse 400 bad_address))
        λ holder. pure (receive_on eth name holder amount (network_of name))

-- `GET /health`
abbrev pub health_handler : Act Answer
health_handler = pure (ok_json health_reply)

-- `GET /ready`, with the database's answer to a query.
unfoldable pub ready_handler : Act (Unit {0}) → Act Answer
ready_handler query =
    catch query (λ _. pure (ok_json ready_reply)) (λ e. pure (json 503 not_ready_reply))

-- What the chain is read for may not write: then the routes write nothing.
module _ {c : Change} (eth : Ethereum) (is_input_error : Fault → Bool) where
  -- No route of the wallet makes a change that the reads of the chain do not make.
  balance_handler-Runs :
      (network address : Option Text)
      → ((net : Network) (holder : Text) → Runs c (eth.balance_of net holder))
      → ((net : Network) → Runs c (eth.decimals net))
      → Runs c (balance_handler eth is_input_error network address)
  unfolding balance_handler get_usdc_balance
  balance_handler-Runs network address reads decimals = Runs-option_case _ _ _ (Runs-pure _) λ name.
      Runs-option_case _ _ _ (Runs-pure _) λ holder.
        Runs-catch _ _ _
          (Runs-bind _ _ (Runs-or_raise _ _) λ net.
            Runs-bind _ _ (reads net holder) λ raw. Runs-bind _ _ (decimals net) λ d. Runs-pure _)
          (λ b. Runs-pure _) (λ e. Runs-pure _)

-- ===== src/Worker/Issue/Completion.antt =====
-- A token transfer that nothing stands in the way of: internal/worker/token_transfer.go runs to its
-- commit.
use eth_custodial.Prelude.{
  ℕ, suc, ◌+◌, ◌<◌, ◌≡◌, refl, ◌∙◌, ap, true, false, some, List, [], ◌∷◌, ◌++◌, arith,
}
use eth_custodial.Prelude.Int.{ℤ}
use eth_custodial.Jobs.{Bytes, TokenTransferArgs}
use eth_custodial.Store.Types.{token_transfer, pending, is_otx_type, is_status_type}
use eth_custodial.Store.Tables.{KeyRow, OtxRow, DispatchRow, Db}
use eth_custodial.Store.Results.{ok, or_error, marshal_failed, bad_private_key}
use eth_custodial.Store.Queries.{
  int_max, keys_of, next_nonce_of, set_next_nonce, otx_row, has_otx, has_dispatch_id,
}
use eth_custodial.World.{World, pure, gets}
use eth_custodial.Runtime.{Env, address, uint}
use eth_custodial.Chain.{transfer, get_settings, string_to_big_int, encode}
use eth_custodial.Pg.Steps.{
  step, lift_step, begin_step, load_private_key_step, acquire_nonce_step, insert_otx_step,
  insert_dispatch_tx_step, insert_many_tx_step, send_step, commit_step,
}
use eth_custodial.Worker.Signing.{sign_call, record_tx, announce, Recorded}
use eth_custodial.Worker.Transfers.{token_transfer_work}
use eth_custodial.Worker.Issue.Signers.{transfer_jobs}

-- What a transfer needs: the sender's key is stored once and parses, its next nonce is below the
-- column's largest value, the libraries encode, sign and marshal the call, and the two ids that
-- are drawn next are new.
pub record Transferable (env : Env) (args : TokenTransferArgs) (w : World) : Type 0 where
  pub sender : KeyRow
  pub key : env.PrivateKey
  pub nonce : ℕ
  pub amount : ℤ
  pub input : Bytes
  pub tx : env.Tx
  pub raw : Bytes
  pub stored : keys_of args.from w.committed.keystore ≡ sender ∷ []
  pub next : next_nonce_of sender.id w.committed.noncestore ≡ some nonce
  pub small : nonce < int_max
  pub parsed : env.hex_to_ecdsa sender.private_key ≡ some key
  pub number : string_to_big_int env args.amount false ≡ ok amount
  pub encoded :
      encode env transfer (address (env.hex_to_address args.to) ∷ uint amount ∷ []) ≡ ok input
  pub signed :
      sign_call env key
        (env.hex_to_address args.token_address)
        input
        (env.hex_to_address args.from)
        w.gas
        nonce
      ≡ ok tx
  pub marshalled : env.marshal_binary tx ≡ some raw
  pub new_otx : has_otx w.otx_seq w.committed.otx ≡ false
  pub new_dispatch : has_dispatch_id w.dispatch_seq w.committed.dispatch ≡ false

module _ (env : Env) (args : TokenTransferArgs) (w : World) (r : Transferable env args w) where
  abbrev pub new_row : OtxRow
  new_row = record {
    id = w.otx_seq;
    tracking_id = args.tracking_id;
    otx_type = token_transfer;
    signer_account = r.sender.id;
    raw_tx = env.hex_encode r.raw;
    tx_hash = env.tx_hash r.tx;
    nonce = r.nonce;
    replaced = false;
    created_at = env.now (suc w.clock);
    updated_at = env.now (suc w.clock);
  }

  abbrev pub new_recorded : Recorded
  new_recorded = record { otx_id = w.otx_seq; raw_tx = env.hex_encode r.raw }

  abbrev pub new_tracked : DispatchRow
  new_tracked = record {
    id = w.dispatch_seq;
    otx_id = w.otx_seq;
    status = pending;
    updated_at = env.now (suc w.clock);
  }

  abbrev pub transferred_db : Db
  transferred_db = record w.committed {
    noncestore = set_next_nonce r.sender.id (r.nonce + 1) w.committed.noncestore;
    otx = new_row ∷ w.committed.otx;
    dispatch = new_tracked ∷ w.committed.dispatch;
    river_job = w.committed.river_job ++ transfer_jobs args.tracking_id args.from new_recorded;
  }

  -- The world after the transfer: eight calls left the process.
  abbrev pub transferred : World
  transferred = record w {
    clock = suc (suc (suc (suc (suc (suc (suc (suc w.clock)))))));
    began_at = env.now (suc w.clock);
    otx_seq = suc w.otx_seq;
    dispatch_seq = suc w.dispatch_seq;
    committed = transferred_db;
    working = transferred_db;
    events = w.events ++ record { tracking_id = args.tracking_id; status = pending } ∷ [];
  }

has_otx_first : (o : OtxRow) (os : List OtxRow) → has_otx o.id (o ∷ os) ≡ true
unfolding has_otx
has_otx_first o os = ground arith

module _ (env : Env) (calm : (t : ℕ) → env.fails t ≡ false) where
  record_tx_step :
      (args : TokenTransferArgs) (k : KeyRow) (n : ℕ) (tx : env.Tx) (raw : Bytes) (w : World)
      → keys_of args.from w.working.keystore ≡ k ∷ []
      → n < int_max
      → env.marshal_binary tx ≡ some raw
      → has_otx w.otx_seq w.working.otx ≡ false
      → has_dispatch_id w.dispatch_seq w.working.dispatch ≡ false
      → record_tx env args.tracking_id token_transfer args.from n tx w ≡ (
        ok (record { otx_id = w.otx_seq; raw_tx = env.hex_encode raw }),
        record w {
          clock = suc (suc w.clock);
          otx_seq = suc w.otx_seq;
          dispatch_seq = suc w.dispatch_seq;
          working = record w.working {
            otx =
                otx_row w.otx_seq w.began_at k.id (record {
                  tracking_id = args.tracking_id;
                  otx_type = token_transfer;
                  signer_account = args.from;
                  raw_tx = env.hex_encode raw;
                  tx_hash = env.tx_hash tx;
                  nonce = n;
                })
                ∷ w.working.otx;
            dispatch =
                record {
                  id = w.dispatch_seq;
                  otx_id = w.otx_seq;
                  status = pending;
                  updated_at = w.began_at;
                }
                ∷ w.working.dispatch;
          };
        },
      )
  unfolding record_tx pure is_otx_type is_status_type
  record_tx_step args k n tx raw w h l m f g =
      step _ _ (lift_step w (ap (λ x. or_error x marshal_failed) m))
      ∙ step _ _ (insert_otx_step env calm _ k _ h l f refl)
      ∙ step _ _ (insert_dispatch_tx_step env calm _ _ _ g (has_otx_first _ _) refl)

  -- Where no call fails, the transfer completes.
  pub token_transfer_run :
      (args : TokenTransferArgs) (w : World) (r : Transferable env args w)
      → token_transfer_work env args w ≡ (ok tt, transferred env args w r)
  unfolding token_transfer_work get_settings gets announce
  token_transfer_run args w r =
      step _ _ (begin_step env calm w)
      ∙ step _ _ (load_private_key_step env calm args.from r.sender _ r.stored)
      ∙ step _ _ (lift_step _ (ap (λ x. or_error x bad_private_key) r.parsed))
      ∙ step _ _ (acquire_nonce_step env calm args.from r.sender r.nonce _ r.stored r.next r.small)
      ∙ step _ _ (lift_step _ r.number)
      ∙ step _ _ (lift_step _ r.encoded)
      ∙ step _ _ refl
      ∙ step _ _ (lift_step _ r.signed)
      ∙ step _ _ (
          record_tx_step args r.sender r.nonce r.tx r.raw _ r.stored r.small r.marshalled r.new_otx
            r.new_dispatch)
      ∙ step _ _ (insert_many_tx_step env calm _ _)
      ∙ step _ _ (send_step env calm _ _)
      ∙ commit_step env calm _

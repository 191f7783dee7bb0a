-- ===== src/Lib.antt =====
-- libaergo, the C client of the Aergo blockchain: a user calls aergo.c, which encodes a request,
-- hands it to socket.c and gets the answer through a callback or a pointer. socket.c runs the
-- requests of an instance over libcurl; libcurl calls it back with the bytes of the responses,
-- which it puts together and passes to the handlers of aergo.c. A transaction that was committed
-- makes socket.c ask for its receipt, in a request of its own whose parent is that of the
-- transaction. Hashes are those of sha256.c, integers are copied in network order by endianess.c,
-- and conversions.c turns amounts to bytes and arguments to JSON. An account on a Ledger device is
-- reached by ledger.c, whose commands ledger/ledger-api.c cuts into APDUs, ledger/ledgerLayer.c
-- into packets, and ledger/dongleCommHidapi.c sends as HID reports.
--
-- Which file models which part:
--
--   Base            lists, tests, bytes and C strings that the others share
--   Endianess       endianess.c (copy_be16, copy_be32, copy_be64)
--   Response        socket.c: server_response_callback, server_header_callback,
--                   process_request_error; Rx holds the fields of struct request they use,
--                   Handlers the functions of a request, Outcome what a call ends in
--     .Rounds       one pass of server_response_callback from loc_again
--     .Delivery     a whole call; .Stream a sequence of calls
--     .Failures     the error paths; .Headers the header line of an error
--   Engine          aergo-int.h: struct request (Request), struct aergo (Instance); the list of
--                   requests, new_request, free_request, and the loops of socket.c over it
--     .Store        reads after writes; .Release the loop at loc_exit
--     .Handlers     the handlers of aergo.c: handle_..._response, handle_query_error,
--                   on_failed_receipt
--     .Process      aergo_process_requests__internal, send_grpc_request and
--                   aergo_get_receipt__internal, which call one another; .Process.Ending the
--                   end of the loops, with .Settled, .Ends, .Fresh, .Rounds, .Wanting and .Passes
--                   its steps
--   Sha256          sha256.c; .Compress is sha256_transform, .Stream the standard's padding
--   Encode          aergo.c: EncodeQuery to EncodeEmptyMessage, encode_varuint64, and
--                   encode_http2_data_frame of socket.c
--     .Frame        the frame, read by the receiver; .Key the keys of state variables;
--                   .Varint encode_varuint64
--   Transaction     aergo.c: struct txn, calculate_tx_hash, sign_transaction,
--                   encode_transaction, EncodeTransfer, EncodeContractCall, EncodeMultiCall
--     .Hash         the hash in what is sent; .Nonce the three encoders
--   Client          the exported functions of aergo.c: here the queries, the subscriptions and
--                   aergo_get_receipt
--     .Query        the text of a call and the asynchronous query; .Answer a query with its answer
--     .Sync         a synchronous request with its answer
--     .Account      aergo_get_blockchain_status, aergo_get_account_state
--     .Transfer     the transfers, multicalls and contract calls; .Transfer.Commit a transfer from
--                   an account that is not known yet, .Amount its amount, .Wrappers the forms for
--                   texts, numbers, doubles and argument lists
--     .Lifecycle    aergo_connect, aergo_free, aergo_process_requests
--   Fields          aergo.c: read_string and the other reading callbacks, encode_account_address;
--                   account.c: encode_address, decode_address; .Reading, .Address their results
--   LinkedList      linked_list.c over a memory of next fields; .Segment the sequence of items
--                   that the memory holds
--   Convert         conversions.c: string_to_bignum, bignum_to_string
--     .Numbers      mbedtls as it is documented; .Digits numbers in its place
--     .Amounts      text to number; .Printing number to text, and back
--     .Json         arguments_to_json; .Render its text, .Overrun the room
--   Ledger.Layer    ledger/ledgerLayer.c (wrapCommandAPDU, unwrapReponseAPDU)
--     .Packets      the packets of a command; .Unwrap, .Partial their reading; .RoundTrip the two
--   Ledger.Hid      ledger/dongleCommHidapi.c: load_hidapi_library, sendApduHidapi and the others
--     .Exchange     the reports of a response; .Whole a command and its response; .Endless
--                   the loop after a response of length zero
--   Ledger.Api      ledger/ledger-api.c: ledger_send_apdu; .Chunks its APDUs
--   Ledger.Device   ledger/dongleComm.c, which joins the two; .Script a device for runs
--   Ledger.Commands ledger.c; .Keys the public key, .Sign the signature
--
-- Modelling: an object in memory is the list of its bytes; an unsigned integer is a natural number,
-- and where the code can wrap around, the remainder is written out. A pointer to a request is a
-- number that malloc gives once, and a number that is not in the list of an instance is memory that
-- was freed: an access to it, or outside of a buffer, is the value fault (none in a handler). What
-- the user sees is the list of notices of an instance. nanopb, libcurl and malloc are parameters:
-- the decoder, the schedule of libcurl's rounds with the calls each makes, and which blocks are
-- given. The same holds for the arithmetic of mbedtls, with the documented behaviour of its
-- functions as a record of laws (Convert.Numbers), and for the HID library and the device behind
-- it, whose state is a type of its own: a device may answer whatever it likes.
--
-- Bounds and fuel: server_response_callback has fuel for its rounds, one for each message in the
-- part. The functions of Engine.Process share one fuel, each call and each pass of a loop taking
-- one (Engine.Process.Ending is about how much of it is enough). A callback that needs more rounds
-- than it has is the value unfinished. release_done has one more than there are requests.
-- wrap_command_apdu has one more than the length of the output, of which each pass takes 5 bytes;
-- unwrap_response_apdu the same of its input. send_apdu_hidapi writes with one more than there are
-- bytes; of the loop that reads, which in the code has no end of its own, 7 passes are modelled,
-- one more than its buffer of 400 bytes has room for reports. The fuel of ledger_send_apdu is an
-- argument, the number of times that the device may ask for the first APDU again, since the code
-- sets no limit.
--
-- Not modelled: the vendored nanopb and mbedtls and the generated blockchain.pb.c; the setting of
-- libcurl's options; the loading of shared libraries in dynamic-lib.c; debug output; the wrappers
-- for other languages and the examples. The context and the arithmetic of secp256k1, libbase58, the
-- printing callbacks and the encoding callbacks that only hand bytes to nanopb are not covered
-- either.
pub mod Base
pub mod Client
pub mod Convert
pub mod Encode
pub mod Endianess
pub mod Engine
pub mod Fields
pub mod Ledger
pub mod LinkedList
pub mod Response
pub mod Sha256
pub mod Transaction

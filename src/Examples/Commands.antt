-- ===== src/Examples/Commands.antt =====
-- Runs of the command line, and of acknowledged data messages.
use didcomm_prober.Crypto.Cipher.{box, seal_box, encrypt_detached}
use didcomm_prober.Crypto.Keys.{peer}
use didcomm_prober.Prober.Agent.{read_message, peer_by_msg}
use didcomm_prober.PubSub.Processor.{on_group_data}
use didcomm_prober.Prelude.{
  ◌≡◌, refl, Text, str, ◌==◌, true, false, Option, none, some, List, [], ◌∷◌, Result, ok, fail,
  lookup,
}
use didcomm_prober.PubSub.Agent.{create}
use didcomm_prober.PubSub.Processor.Acks.{
  Registration, registers, unregisters, registered, last_channel, data_acked, data_acked-registered,
}
use didcomm_prober.PubSub.Node.{Node}
use didcomm_prober.Domain.{multiple_queue_mode}
use didcomm_prober.Cli.Console.{Console, trim_space}
use didcomm_prober.Cli.Commands.{CliEnv, create_group}
use didcomm_prober.Cli.Groups.{create_group_lem}
use didcomm_prober.Crypto.Packer
use didcomm_prober.Examples.{alice, bob, chess}
use didcomm_prober.Examples.Nodes.{group_env, alice_node, fresh, chess_group}
use didcomm_prober.Examples.Packing.{libs, random}

abbrev cli_env : CliEnv
cli_env = record {
  group = λ c. group_env;
  fresh = λ c. fresh;
  query_of = λ t. ok none;
  discover = λ c endpoint query comment. fail "no peer";
  feature_line = λ f. f.id;
  listened = λ c. false;
}

-- The commands are shown, a group is made, and the program is left.
abbrev typed : List (Option Text)
typed =
    some (str "c")
    ∷ some (str "4")
    ∷ some chess
    ∷ some (str " y")
    ∷ some (str "m")
    ∷ some (str "N")
    ∷ some (str "Y")
    ∷ some (str "c")
    ∷ none
    ∷ some (str "e")
    ∷ []

abbrev console : List (Option Text) → Console
console lines = record { node = alice_node []; lines = lines; shown = []; dis_cmds = 0 }

abbrev answers : List (Option Text)
answers = some chess ∷ some (str " y") ∷ some (str "m") ∷ some (str "N") ∷ some (str "Y") ∷ []

create_group_lem_example :
    (create_group cli_env (console answers)).1.node
    ≡ (create group_env chess true
        (record { order_enabled = true; join_consistent = false; mode = multiple_queue_mode })
        (alice_node [])).1
unfolding trim_space ◌==◌
create_group_lem_example =
    create_group_lem cli_env (console answers) chess (str " y") (str "m") (str "N") (str "Y") []
      refl

abbrev text_of : Result Text → Text
text_of (ok t) = t
text_of _ = []

-- bob's message to alice
abbrev letter : Text
letter = text_of (elim (Packer.pack libs random (str "hello") alice bob bob) [
  | ok msg ↦ libs.msgs.marshal msg
  | _ ↦ fail "not packed"
])

abbrev plain_group : Node
plain_group = alice_node (
    (
      chess,
      record chess_group {
        params =
            some (record {
              order_enabled = false;
              join_consistent = false;
              mode = multiple_queue_mode;
            });
      },
    )
    ∷ [])

abbrev letter_topic : Text
letter_topic = str "urn:didcomm-queue:chess:data:bob:alice"

abbrev calls : List Registration
calls = registers bob 5 ∷ registers alice 6 ∷ unregisters alice ∷ []

data_acked-registered_example :
    (data_acked group_env (registered calls []) letter_topic letter plain_group).0
    ≡ some (5, str "hello")
unfolding on_group_data read_message peer_by_msg peer ◌==◌ lookup Packer.pack box seal_box
    encrypt_detached didcomm_prober.Crypto.Keys.private_key Packer.unpack
    didcomm_prober.Crypto.Cipher.seal_box_open didcomm_prober.Crypto.Cipher.box_open
    didcomm_prober.Crypto.Cipher.decrypt_detached didcomm_prober.PubSub.Syncer.parse last_channel
data_acked-registered_example =
    data_acked-registered group_env calls letter_topic letter bob (str "hello") plain_group refl

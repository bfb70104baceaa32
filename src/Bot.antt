-- ===== src/Bot.antt =====
-- vpnpulse/bot.py: the bot polls for updates and answers the commands that ask for the app.
pub mod Polling
use vpn_pulse.Prelude.{
  ℕ, zero, suc, ◌+◌, ◌*◌, min, String, Bool, true, false, not, ◌&&◌, ◌||◌, Option, none, some, List,
  [], ◌∷◌, ◌++◌, contains, if◌then◌else◌, ◌==◌, string_eq, leb, option_eq,
}
use vpn_pulse.Prelude.Lists.{select}

-- An update of the Bot API, with the defaults of the code: the type and the id of the chat of its
-- message, and the message's text without the white space at its ends.
pub record Update : Type 0 where
  pub update_id : ℕ
  pub chat_type : Option String
  pub chat_id : ℕ
  pub text : String

-- What the bot takes from Python and from Telegram: `text.split()[0].split("@")[0].lower()` of a
-- text that is not empty, and whether `sendMessage` to a chat succeeds.
pub record Messenger : Type 0 where
  pub command_of : String → String
  pub is_sent : ℕ → Bool

-- COMMANDS
abbrev pub commands : List String
commands = "/start" ∷ "/help" ∷ []

pub data Polled : Type 0 where
  -- ConnectionError
  raised : Polled
  replied : ℕ → Polled

-- The bot: its offset, and the chats for which it called `sendMessage`, oldest first.
pub record Bot : Type 0 where
  pub offset : Option ℕ
  pub addressed : List ℕ

module _ (m : Messenger) where
  unfoldable pub is_command : Update → Bool
  is_command u =
      u.chat_type == some "private"
      && (not (u.text == "") && contains commands (m.command_of u.text))

  -- One round of the loop over the updates: the bot, and the number of replies.
  unfoldable pub answer : Bot → ℕ → Update → Bot × ℕ
  unfolding is_command
  answer bot replies u =
      if is_command u
      then (
        record { offset = some (u.update_id + 1); addressed = bot.addressed ++ u.chat_id ∷ [] },
        (if m.is_sent u.chat_id then replies + 1 else replies),
      )
      else (record bot { offset = some (u.update_id + 1) }, replies)

  unfoldable pub answer_all : Bot → ℕ → List Update → Bot × ℕ
  unfolding answer
  answer_all bot replies [] = (bot, replies)
  answer_all bot replies (u ∷ updates) =
      let (next, count) = answer bot replies u in answer_all next count updates

  -- `poll_once` with the answer of getUpdates, which is nothing when the call failed.
  unfoldable pub poll_once : Bot → Option (List Update) → Bot × Polled
  unfolding answer_all
  poll_once bot none = (bot, raised)
  poll_once bot (some updates) =
      let (next, replies) = answer_all bot 0 updates in (next, replied replies)

unfoldable pub two_to : ℕ → ℕ
two_to zero = 1
two_to (suc n) = 2 * two_to n

-- `run_forever`: the pauses in seconds, given whether each poll raised; no pause after a poll that
-- did not. `failures` counts those that raised in a row, six at most.
unfoldable pub pauses : ℕ → List Bool → List ℕ
unfolding two_to
pauses failures [] = []
pauses failures (false ∷ polls) = pauses 0 polls
pauses failures (true ∷ polls) =
    let count = min (failures + 1) 6 in min 60 (two_to count) ∷ pauses count polls

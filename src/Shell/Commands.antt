-- ===== src/Shell/Commands.antt =====
-- The commands of src/shell.rs: the table `COMMANDS`, and `Shell::execute` as the list of what it does
-- to the console. `none` is a panic, that of `unreachable!` too.
pub mod Safe
pub mod Echo
use Prim.Native.String.{String}
use crab_os.Prelude.{
  ℕ, zero, suc, ◌+◌, ◌-◌, ◌/◌, ◌%◌, Bool, true, false, not, ◌&&◌, ◌||◌, Option, none, some, List,
  [], ◌∷◌, ◌++◌, map, any, ltb, ◌==◌, if◌then◌else◌, codes, decimal, hex_byte, pad_left, pad_right,
  join, ◌>>=◌,
}
use crab_os.Net.Url.{Url, UrlError}
use crab_os.Net.Url
use crab_os.Net.Web.{WebError}
use crab_os.Net.Web
use crab_os.Pci.{Address}
use crab_os.System.{SystemInfo, Readings, fastfetch, heap_size, uptime_text}
use crab_os.Shell.Line
use crab_os.Shell.History.{History, same_text}
use crab_os.Shell.History
use crab_os.Shell.Arguments.{Arguments, Error, Outcome, parse}
use crab_os.Shell.Arguments
use crab_os.Shell.Output.{Action, text, print, println, println_text}

-- `&[(name, description)]`
abbrev command : String → String → List ℕ × List ℕ
command name description = (codes name, codes description)

abbrev pub commands : List (List ℕ × List ℕ)
commands =
    command "help" "Show commands and keyboard shortcuts"
    ∷ command "fastfetch" "Show the CrabOS logo and live system information"
    ∷ command "clear" "Clear the screen and scrollback"
    ∷ command "echo" "Print arguments (quotes and backslash escapes supported)"
    ∷ command "uname" "Show kernel name; -a for version and architecture"
    ∷ command "uptime" "Show time since kernel initialization"
    ∷ command "mem" "Show boot memory and current heap allocation payloads"
    ∷ command "history" "Show the last 16 commands"
    ∷ command "whoami" "Show the console user"
    ∷ command "hostname" "Show the system name"
    ∷ command "lspci" "Find the supported Intel I225-V Ethernet controller"
    ∷ command "net" "Show Ethernet controller and link status"
    ∷ command "browse" "Open a plain HTTP page in the terminal"
    ∷ []

-- What `crate::net::fetch` returns: the response, or a message.
pub data Fetched : Type 0 where
  ok : List ℕ → Fetched
  err : List ℕ → Fetched

-- What the commands ask the rest of the kernel for.
pub record Machine : Type 0 where
  pub info : SystemInfo
  pub readings : Readings
  pub ethernet : Option Address
  pub status : Option (List ℕ × Bool)
  pub fetch : Url → Fetched

abbrev pub message : Error → List ℕ
message Error.bad_input = codes "input must be at most 256 ASCII bytes"
message Error.chaining = codes "pipes, redirection and command chaining are not available"
message Error.unfinished_escape = codes "unfinished backslash escape"
message Error.unclosed_quote = codes "unclosed quote"
message Error.too_many = codes "too many arguments (maximum 32)"

abbrev pub url_message : UrlError → List ℕ
url_message UrlError.use_http = codes "use an http:// URL"
url_message UrlError.invalid_port = codes "invalid HTTP port"
url_message UrlError.invalid_url = codes "invalid HTTP URL"

abbrev pub web_message : WebError → List ℕ
web_message WebError.invalid_response = codes "invalid HTTP response"
web_message WebError.invalid_status = codes "invalid HTTP status"

-- The command is the literal.
abbrev pub is : List ℕ → String → Bool
is name literal = same_text name (codes literal)

-- `COMMANDS.iter().any(|(name, _)| *name == command)`
abbrev pub is_command : List ℕ → Bool
is_command name = any (λ c. same_text c.0 name) commands

-- `COMMANDS.iter().find(|(name, _)| *name == command)`
abbrev pub find_command : List ℕ → List (List ℕ × List ℕ) → Option (List ℕ × List ℕ)
find_command name [] = none
find_command name (c ∷ table) =
    let later = find_command name table in if same_text c.0 name then some c else later

-- `args.len == 2 && args.get(1) == literal`
abbrev pub second_is : Arguments → String → Option Bool
second_is args literal =
    if args.len == 2
    then (Arguments.get args 1 >>= λ second. some (is second literal))
    else some false

-- The loop of `echo`, from an index, for so many arguments.
unfoldable pub echo_from : Arguments → ℕ → ℕ → Option (List Action)
echo_from args index zero = some []
echo_from args index (suc count) = do
  word ← Arguments.get args index
  rest ← echo_from args (index + 1) count
  some ((if ltb 1 index then print " " ∷ [] else []) ++ text word ∷ rest)

unfoldable pub echo : Arguments → Option (List Action)
echo args = do actions ← echo_from args 1 (args.len - 1); some (actions ++ text (10 ∷ []) ∷ [])

unfoldable pub uname : Machine → Arguments → Option (List Action)
uname m args = if args.len == 1 then some (println "CrabOS" ∷ []) else (do
  all_facts ← second_is args "-a"
  some (
      (if all_facts
        then println_text (codes "CrabOS crabos " ++ (m.readings.version ++ codes " x86_64"))
        else println "usage: uname [-a]")
      ∷ []))

-- A page that was fetched and rendered, or the error of either.
abbrev pub show_page : Web.Rendered → Action
show_page (Web.Rendered.ok page) = println_text page
show_page (Web.Rendered.err e) = println_text (codes "browse: " ++ web_message e)

abbrev pub show_response : Fetched → Action
show_response (Fetched.err e) = println_text (codes "browse: " ++ e)
show_response (Fetched.ok response) = show_page (Web.render response)

abbrev pub browse_url : Machine → List ℕ → Url.Parsed → List Action
browse_url m input (Url.Parsed.err e) = println_text (codes "browse: " ++ url_message e) ∷ []
browse_url m input (Url.Parsed.ok url) =
    println_text (codes "Loading " ++ input) ∷ show_response (m.fetch url) ∷ []

unfoldable pub browse : Machine → Arguments → Option (List Action)
browse m args =
    if not (args.len == 2)
    then some (println "usage: browse http://host/path" ∷ [])
    else (do input ← Arguments.get args 1; some (browse_url m input (Url.parse input)))

-- The loop of `help` over the table.
abbrev pub help_lines : List (List ℕ × List ℕ) → List Action
help_lines [] = []
help_lines (c ∷ table) =
    println_text (codes "  " ++ (pad_right 10 c.0 ++ (codes " " ++ c.1))) ∷ help_lines table

unfoldable pub help : List Action
help =
    help_lines commands
    ++ println "\nEditing: Left/Right, Home/End, Backspace/Delete, Tab completion"
      ∷ println "History: Up/Down or Ctrl+P/N; scrollback: PageUp/PageDown"
      ∷ println "Ctrl+A/E: start/end; Ctrl+U/K: erase to start/end; Ctrl+W: word"
      ∷ println "Ctrl+C: close terminal; Ctrl+Q: open terminal"
      ∷ println "Ctrl+L: clear and redraw; Ctrl+D: delete at cursor"
      ∷ println "US keyboard, ASCII input, 256 bytes/line, 16 history entries."
      ∷ println "Built-in commands only; no filesystem or external programs yet."
      ∷ []

unfoldable pub memory : Machine → List Action
memory m =
    println_text (
      codes "Boot-usable physical RAM: " ++ (decimal (m.info.usable_memory / 1024) ++ codes " KiB"))
    ∷ println_text
        (codes "Kernel heap capacity:     " ++ (decimal (heap_size / 1024) ++ codes " KiB"))
    ∷ println_text (
        codes "Live allocation payload:  "
        ++ (decimal m.readings.requested_bytes ++ codes " bytes"))
    ∷ println "Payload excludes allocator metadata, rounding and cached blocks."
    ∷ println "Boot-usable RAM is not a measurement of current free memory."
    ∷ []

-- The loop of `history`, from an index, for so many entries.
unfoldable pub history_from : History → ℕ → ℕ → Option (List Action)
history_from h index zero = some []
history_from h index (suc count) = do
  line ← History.get h index
  entry ← Line.as_str line
  rest ← history_from h (index + 1) count
  some (println_text (pad_left 3 (decimal (index + 1)) ++ (codes "  " ++ entry)) ∷ rest)

abbrev pub show_address : Option Address → Action
show_address none = println "Intel I225-V Ethernet [8086:15f3] not found"
show_address (some a) = println_text (
    hex_byte a.bus
    ++ (codes ":"
        ++ (hex_byte a.device
            ++ (codes "." ++ (decimal a.function ++ codes " Intel I225-V Ethernet [8086:15f3]")))))

-- The six bytes of the address with colons between them.
abbrev pub show_status : Option (List ℕ × Bool) → Action
show_status none = println "No initialized Ethernet controller"
show_status (some (mac, link)) = println_text (
    codes "QEMU e1000 "
    ++ (join (codes ":") (map hex_byte mac)
        ++ (codes " link " ++ (if link then codes "up" else codes "down"))))

-- The last arms of the `match`: the commands without arguments.
unfoldable pub execute_plain : Machine → History → List ℕ → Option (List Action)
execute_plain m h name =
    if is name "help"
    then some help
    else if is name "fastfetch"
    then some (fastfetch m.readings m.info)
    else if is name "clear"
    then some (Action.clear ∷ [])
    else if is name "uptime"
    then some (println_text (codes "up " ++ uptime_text m.readings.uptime_seconds) ∷ [])
    else if is name "mem"
    then some (memory m)
    else if is name "history"
    then history_from h 0 h.len
    else if is name "whoami"
    then some (println "shaolin" ∷ [])
    else if is name "hostname"
    then some (println "crabos" ∷ [])
    else if is name "lspci"
    then some (show_address m.ethernet ∷ [])
    else if is name "net"
    then some (show_status m.status ∷ [])
    else none

-- The arms from `browse` on.
unfoldable pub execute_rest : Machine → History → Arguments → List ℕ → Option (List Action)
execute_rest m h args name =
    if is name "browse"
    then browse m args
    else if not (is_command name)
    then some
        (println_text (codes "crabsh: " ++ (name ++ codes ": command not found. Try 'help'.")) ∷ [])
    else if ltb 1 args.len
    then some (println_text (codes "usage: " ++ (name ++ codes " (no arguments)")) ∷ [])
    else execute_plain m h name

-- The `match` on the command.
unfoldable pub execute_match : Machine → History → Arguments → List ℕ → Option (List Action)
execute_match m h args name =
    if is name "echo" then echo args else if is name "uname" then uname m args else (do
      version ← (if is name "fastfetch" then second_is args "--version" else some false)
      (if version
          then some (
              println_text (
                codes "CrabOS native fastfetch "
                ++ (m.readings.version ++ codes " (not the upstream program)"))
              ∷ [])
          else execute_rest m h args name))

-- The `--help` of a command, which comes before the `match`.
abbrev pub help_or :
    Machine → History → Arguments → List ℕ → Option (List ℕ × List ℕ) → Option (List Action)
help_or m h args name (some (found, description)) =
    some (println_text (found ++ (codes ": " ++ description)) ∷ [])
help_or m h args name none = execute_match m h args name

abbrev pub execute_args : Machine → History → Arguments → Option (List Action)
execute_args m h args = if args.len == 0 then some [] else (do
  name ← Arguments.get args 0
  wants_help ← second_is args "--help"
  help_or m h args name (if wants_help then find_command name commands else none))

abbrev pub execute_parsed : Machine → History → Outcome Arguments → Option (List Action)
execute_parsed m h Outcome.panic = none
execute_parsed m h (Outcome.err e) = some (println_text (codes "crabsh: " ++ message e) ∷ [])
execute_parsed m h (Outcome.ok args) = execute_args m h args

-- `Shell::execute`
unfoldable pub execute : Machine → History → List ℕ → Option (List Action)
execute m h input = execute_parsed m h (parse input)

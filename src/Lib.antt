-- ===== src/Lib.antt =====
-- A model of LazySSH, with the theorems about it: a terminal program that keeps a list of SSH hosts,
-- copies files over SFTP and opens shells, and a helper `lss` that keeps shells alive on the server.
--
-- The parts of the program, and the files that model them:
--
--   * cmd/lss, the session helper. Lss.Conn is a client's connection as the daemon sees it, Lss.Frame
--     the framed protocol of proto.go (`writeFrame`, `readFrame`), Lss.Session the scrollback and the
--     map of clients of daemon.go (`write`, `broadcastLocked`, `feed`, `ping`, `add`, `remove`), with
--     an event list for what the goroutines do under the mutex; Lss.Daemon is `handleClient`,
--     Lss.Client is client.go, Lss.Commands is main.go with its files, Lss.Startup is `cmdNew` and
--     `runDaemon` up to its goroutines, and Lss.Lifecycle is what follows, as a step relation.
--   * internal/model/host.go: Model, and Model.Ids for `NewID`.
--   * internal/config: Config.Crypto (crypto.go), Config.Storage and Config.Merge (config.go), and
--     Config.Base64 for the encoding that crypto.go packs its values with.
--   * internal/ssh: Ssh.Auth, Ssh.KnownHosts and Ssh.Connect (`buildAuth`, `loadTolerantKnownHosts`,
--     `appendKnownHost`, `Connect`, `Close` of sftp.go), Ssh.Transfer (`ListDir`, `RemoveRemoteAll`,
--     `DownloadDir`, `UploadDir`, `progressReader`), Ssh.Helper (persist.go), Ssh.Terminal
--     (terminal.go).
--   * internal/ui/hostlist.go: Ui.Hosts is the filter, the deletion and the cursor, Ui.Tree the tree of
--     folders that `rebuild` grows, Ui.Main the whole screen with its search bar, import, export and
--     the form, over the store and the hosts file.
--   * internal/ui/hostform.go: Ui.Form.
--   * internal/ui/filebrowser.go: Ui.Browser is the directories of the two panels, Ui.Actions what the
--     keys ask for and what follows, Ui.Browsing the browser as a whole, Ui.Editing the edit of a
--     remote file and the viewer, Ui.Format the formats.
--   * internal/ui/app.go: Ui.Connecting (`connectSFTPwithPwd`), Ui.Preparing (`prepareSession`),
--     Ui.Sessions (`showSessionSelector`, `chooseSSHMode`).
--   * Strings and Paths are the functions of Go's library that these call; Base is what all share.
--
-- The parts meet as in the program: Ui.Connecting decrypts with Config.Crypto, Ui.Preparing works
-- on the remote files of Ssh.Helper, whose commands Ui.Sessions gives to Ssh.Terminal and Lss.Commands
-- carries out; Ui.Main saves with Config.Storage, which merges by Config.Merge, and fills hosts by
-- Ui.Form; Lss.Startup starts what Lss.Commands dispatches, and Lss.Lifecycle leaves the socket that it
-- looks for; Ssh.Connect takes its methods from Ssh.Auth. The Tests modules hold the theorems at
-- concrete inputs, and tests.
--
-- A state is a record, an operation a function from the state to the state and its result; what runs
-- concurrently is a list of events, or a step relation. What is not of this program is a parameter:
-- the authenticated cipher and the key derivation (record `Aead`), YAML (`Yaml`), the known hosts
-- library (`Library`), `ssh.Dial` (`Network`, with the law that a connection is made only where the
-- callback accepted the key shown), SHA-256 and JSON. Random bytes, the user's answers and keys, the
-- editor's result, and the failures of disks and servers are arguments.
--
-- Bounds: the scrollback holds 256 * 1024 bytes, the daemon reads 4096 bytes of terminal output and
-- the client 1024 bytes of input at once; a frame's length has three bytes. The loops over a stream
-- of frames, `receive` of Lss.Client and `handle` of Lss.Daemon, take fuel; their theorems state how
-- much is enough, one unit for each frame, the replay's included, and one for the end. The wait of
-- `cmdNew` takes a unit for each 50 ms of its 2 s and one for the end. A folder's tree is grown with a
-- unit for each byte of its path and one more, and walked to a depth of one more than the longest
-- path. All other loops recur on their input.
--
-- Not modelled: the widgets, pages and colours of internal/ui, the dates in the file browser, the
-- one-line calls of the SFTP library in sftp.go, the pseudo terminal and raw mode of cmd/lss, which
-- are the system's, and cmd/lazyssh/main.go, which loads the store and runs the screen. Two daemons of
-- one name that start at once are not modelled. Bytes stand for Go strings, with the letters and
-- white space of ASCII; a nil slice is an empty list; two spellings of a path name one file only
-- where they are equal. Sizes of files are below 2^53.
pub mod Base
pub mod Strings
pub mod Paths
pub mod Model
pub mod Config
pub mod Lss
pub mod Ssh
pub mod Ui

-- ===== src/Tests/Whole.antt =====
-- A whole session of Ana's phone: it uploads a file, asks for the list, deletes the file and exits.
use dropbox_simulator.Common.{List, [], ◌∷◌}
use dropbox_simulator.Client.Requests.{Request, uploads, deletes, lists}
use dropbox_simulator.Tests.Commands.{notes, draft}

abbrev requests : List Request
requests = uploads notes draft ∷ lists ∷ deletes notes ∷ []

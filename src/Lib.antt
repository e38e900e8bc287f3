-- ===== src/Lib.antt =====
-- The front end of modbus-simulator-go: internal/web/static/js/app.js, the Modbus view with its
-- import of logged frames, and internal/web/static/js/private_protocol.js, the editor of private
-- protocol rules. (web/static/js holds the same two files.)
--
-- Parts, and the files that model them:
--   Base      shared names; texts as lists of UTF-16 code units, numbers in a base, bit operations
--   Hex       hexToBytes, bytesToHex, hexToInt16, hexToUint16, hexToFloat32Order, parseHexPayload
--   Crc       crc16 and validateCRC
--   Report    the counters that importFrames and importPrivateFrames fill
--   Frame     parseRequest and parseResponse, with the TCP and RTU parsers behind them
--   Address   regTypes, getRegType, getLogicalStart, formatHexAddr and the extent of a block
--   Pairing   parseFramePairs, parsePrivateFramePairs and parsePrivatePayload: the messages of a log
--   Template  normalizeHexTemplate, formatHexTemplateForDisplay, asciiToHexTemplate and
--             hexToAsciiTemplate of private_protocol.js
--   Registers applyRegisterUpdate, ensureRegisterCache, updateHex, updateBit, and the blocks that
--             loadTabContent shows: the cache and the server's blocks of a device; renderRegisterRows
--   Tree      the order, the groups, the keys and the selection of the device tree, and the groups of
--             the private connections
--   Import    importFrames and importPrivateFrames, findOrCreateSlave, ensureDefaultSlave
--   Naming    nextPrivateImportRuleName, nextRuleName, getNextPort, getNextPrivatePort
--   Tabs      openRegisterTab, selectTab, closeTab, closeTabsByConnection, closeTabsBySlave, refreshTab
--   Editor    the rule table of private_protocol.js: syncRuleField, addRow, deleteSelectedRow,
--             buildSavePayload and their helpers
--   Drafts    the state of private_protocol.js and its actions: refreshPrivateData, setMode,
--             attemptSwitchConnection, the events of the content area, saveActiveConnection,
--             submitConnectionSettings, deleteConnection
--   Devices   the forms of app.js: connectionForm, copyDevice, deleteDevice, registerForm,
--             showEditRegister, deleteRegisterAddr, openAddDeviceModal, editDevice
--   Browser   the device tree on the page: renderTree, updateRegTypeCounts, toggleNode, the clicks, the
--             selection and the buttons below the tree
--   PrivateView
--             the tree and the table of private_protocol.js: renderPrivateTree, the categories that are
--             open, renderRuleRow, updateRowDom, escapeHtml, updatePrivateActionState
--   Dialog    the import dialog: openImportModal, configureImportModal, populateImportConnections,
--             importForm.onsubmit, renderImportSummary, formatImportError
-- A log is cut into messages by Pairing, whose payloads are read by Hex; Frame reads the bytes of
-- a message and asks Crc for its checksum; Import trims the reply to what the request asked for,
-- finds the device in the Tree and writes the values to its Registers; Address maps the request's
-- PDU address to the numbering of the register table. Editor converts its fields with Template and
-- takes the name of a new row from Naming; Drafts keeps one table of Editor for each connection, in
-- the maps of Base.Dict, and its connections in the order of Tree. Devices reads the Tree, takes
-- ports and free names from Naming, and closes the Tabs of what it deletes. Dialog opens for the
-- active connection of Drafts, lists the Tree, and runs Import and Devices' check of ports.
-- PrivateView shows the State of Drafts and the rows of Editor. Browser draws the groups of Tree, counts with Address and opens a tab of Tabs.
--
-- Names are the source's in snake case. A value that may be null, undefined or NaN is an Option. A
-- counter that a function increments is returned in the new report. A loop over an array is a
-- recursion on the list; a loop that moves an index by a match is a recursion on the text with a
-- count of the characters to pass over; the search of parsePrivateFramePairs has fuel, one more
-- than the length of the text, and the search for a free name one more than the names in use. The
-- loops of applyRegisterUpdate that fill addresses without a block have fuel, one for each address
-- of the update, since every round passes at least one. An async function runs to its end before the
-- next one starts.
--
-- Bounds: bytes are below 256 where a theorem says so; TCP and RTU replies carry at most 250 bytes.
-- toUpperCase and toLowerCase are modelled on ASCII letters. parseInt(s, 16) is modelled on texts
-- with no sign, blank or 0x prefix, as its callers pass; parseInt(s) on the decimal texts that a
-- number field holds, a negative number like NaN, since the forms refuse both.
-- Parameters: getFloat32 with formatNumber, the product of a value and its coefficient,
-- TextEncoder, Intl.Collator and localeCompare; the answers of the server (the records Server,
-- World, Api, Answers and Backend), and the user's answer to confirm.
-- Left out: the random parts of a private rule (id, randomConfig), and answers of the server that
-- are no lists where the code takes them for lists.
-- Not modelled: markup, event wiring, toasts, the switch between the modes, the fetch calls
-- themselves, and the Go server.
pub mod Base
pub mod Hex
pub mod Crc
pub mod Report
pub mod Frame
pub mod Address
pub mod Pairing
pub mod Template
pub mod Naming
pub mod Tabs
pub mod Editor
pub mod Import
pub mod Tree
pub mod Devices
pub mod Browser
pub mod Dialog
pub mod PrivateView
pub mod Drafts
pub mod Registers

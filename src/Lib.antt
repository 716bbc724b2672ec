-- ===== src/Lib.antt =====
-- A verification library for scripts/cpplint.py, the style check that the repository runs on its C++
-- sources with `make check`. It models the functions that prepare a file before its lines are checked,
-- those that follow its blocks, those that decide whether a message of a check is printed, the checks
-- of style, of header guards, and some of the other checks.
--
-- A file reaches the program as a list of lines. `RemoveMultiLineComments` clears comments over
-- several lines, `CleansedLines` keeps four copies of the lines with raw strings, comments and
-- strings taken out, and the checks read these copies, matching brackets with `CloseExpression`. A
-- check calls `Error`, which asks `_ShouldPrintError`; that reads the suppressions that
-- `ParseNolintSuppressions` collects, and the filters and the verbosity level of `_CppLintState`, whose
-- counters `Error` increments. `_IncludeState` and `_FunctionState` are kept while the lines of a file
-- are read. `NestingState.Update` reads each line, in the copy without comments and strings, before the
-- checks do, and keeps the stack of blocks, and for each #if the stacks to go back to. `CheckStyle`
-- then calls twelve checks on the line, each of which may call `Error`.
--
-- Which file models which part of scripts/cpplint.py:
--   Str.antt             Python's text methods, on lists of code points
--   Regex.antt           Python's `re`, as a backtracking matcher, and `Match`, `Search`, `ReplaceAll`
--   Tables.antt          the tables of categories, filters and headers
--   Report.antt          the arguments of the callback `error`
--   Nolint.antt          `ParseNolintSuppressions` to `IsErrorSuppressedByNolint`
--   LintState.antt       the class `_CppLintState`
--   Reporting.antt       `_ShouldPrintError` and `Error`
--   IncludeState.antt    the class `_IncludeState`, and how `CheckIncludeLine` adds a header to it
--   FunctionState.antt   the class `_FunctionState`
--   Cleanse/RawStrings.antt   `CleanseRawStrings`
--   Cleanse/MultiLine.antt    `RemoveMultiLineComments` and its three helpers
--   Cleanse/Comments.antt     `IsCppString` and `CleanseComments`
--   Cleanse/Collapse.antt     `CleansedLines._CollapseStrings`
--   Cleanse/Lines.antt        the constructor of `CleansedLines`
--   Brackets/Forward.antt     `FindEndOfExpressionInLine` and `CloseExpression`
--   Brackets/Backward.antt    `FindStartOfExpressionInLine` and `ReverseCloseExpression`
--   Brackets/Text.antt        balanced text, for the theorems on brackets
--   Checks/File.antt          `CheckForCopyright`, `CheckForBadCharacters`, `GetIndentLevel`, and
--                             `CheckForNewlineAtEOF`
--   Checks/Line.antt          seven checks and tests of a line by patterns
--   Checks/Headers.antt       `_DropCommonSuffixes` and `_ClassifyInclude`, with `os.path`
--   Checks/Blank.antt         `IsBlankLine` and `GetPreviousNonBlankLine`
--   Checks/Comment.antt       `CheckComment`
--   Checks/Functions.antt     `CheckForFunctionLengths`
--   Nesting/Blocks.antt       the block classes, the state of `NestingState` and its tests
--   Nesting/Preprocessor.antt `UpdatePreprocessor`
--   Nesting/Template.antt     `InTemplateArgumentList`
--   Nesting/Ends.antt         `CheckBegin` and `CheckEnd` of the block classes
--   Nesting/Update.antt       `Update`
--   Nesting/File.antt         the calls of `ProcessFileData` that prepare a file and follow its blocks
--   Nesting/Indentation.antt  `CheckForNamespaceIndentation` and what it calls
--   Checks/Calls.antt         `CheckSpacingForFunctionCall`
--   Checks/Spacing.antt       `CheckSpacing`, `CheckParenthesisSpacing`, `CheckCommaSpacing`
--   Checks/Operators.antt     `CheckOperatorSpacing`
--   Checks/Types.antt         `_TYPES` and `_IsType`
--   Checks/BraceSpacing.antt  `CheckBracesSpacing`, `CheckSectionSpacing`
--   Checks/Braces.antt        `CheckBraces`
--   Checks/Access.antt        `CheckAccess`
--   Checks/Semicolons.antt    `CheckTrailingSemicolon`
--   Checks/Macros.antt        `FindCheckMacro`, `CheckCheck` and their tables
--   Checks/AltTokens.antt     `CheckAltTokens` and its table
--   Checks/Width.antt         `GetLineWidth`
--   Checks/Aligned.antt       a line number within the four lists, for the theorems on checks
--   Style.antt                `CheckStyle`
--   Reporting/Run.antt        the calls of `Error` of several checks in a row
--   Context.antt              what the checks read beside the file and their state
--   Settings.antt             the settings, `ProcessHppHeadersOption`, `IsHeaderExtension`
--   Files/System.antt         the file system, a parameter, and `os.path` on its paths
--   Files/Info.antt           the class `FileInfo`
--   Files/Guard.antt          `GetHeaderGuardCPPVariable`, `CheckForHeaderGuard`
--   Prelude/Int.antt          integers, for depths that may be negative
--   Prelude/Fallible.antt     steps that may raise an exception
--   Examples.antt             runs on small inputs
-- The files below a file hold the proofs about it. A method is a function from the state before to
-- the state after; a method that calls `error` returns its reports; an index that Python gives as -1
-- is `none`. A pattern is a term of `Regex`, written next to its text in the source.
--
-- Loops run by structural recursion over lines or characters, or on fuel. The fuel of a loop of a
-- pattern is the number of characters left, since a round that takes no character is not repeated.
-- The fuel of `CleanseRawStrings` and `_CollapseStrings` is one more than the number of characters,
-- since each round leaves a shorter text; that of `RemoveMultiLineComments` is one more than the
-- number of lines. Each of the two loops of `Update` cuts the line by a character at least, so their
-- fuel is the length of the line and one; a round of `InTemplateArgumentList` passes a character or the
-- end of a line, so its fuel is the number of both in the file, and one. The loops of `RepositoryName`
-- go to a shorter directory or stay at the root of the file system; their fuel is one more than the
-- length of the first, and running out of it stands for a loop that does not end. The loop of
-- `CheckOperatorSpacing` takes a character that is not part of a word out of the line, and that of
-- `CheckCheck` cuts the expression, so their fuel is the length, in the first with one more.
--
-- A block of the stack has a number that stands for the identity of its object; `copy.deepcopy` gives
-- new numbers. The only object that is read through a second name is `previous_stack_top`, of which
-- only the class and the identity are read, and these never change.
--
-- Not modelled are the checks of language and of includes, the functions that compose the checks of
-- a file, the reading of files and of the command line, and the C++ programs in src, which share no
-- code with the script. What the file system and the module `unicodedata` answer is a parameter.
-- Text is Python 2 `unicode`; `lower` and `upper` are told for ASCII letters; the logarithm in `Check`
-- is the exact one, rounded down, where Python computes with floating point numbers.
pub mod Prelude
pub mod Str
pub mod Regex
pub mod Report
pub mod Tables
pub mod Settings
pub mod LintState
pub mod Nolint
pub mod Reporting
pub mod FunctionState
pub mod IncludeState
pub mod Cleanse
pub mod Brackets
pub mod Checks
pub mod Nesting
pub mod Files
pub mod Context
pub mod Style
pub mod Examples
